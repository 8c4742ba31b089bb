-- ===== src/Client/Owned.antt =====
-- The fids that the calls on paths of libmixp/client.c take and give back.
use libmixp.Base.{ℕ, ◌+◌, ◌^◌, ◌<◌, ◌≡◌, ◌⊎◌, Bool, true, false, Option, none, some}
use libmixp.Fcall.{Fcall}
use libmixp.Stat.{Stat}
use libmixp.Client.{Cfid, Pool}
use libmixp.Client.Fids.{IsPool, with_fid, without_fid}

-- The fids in use are those of `used`, or one more that was free.
abbrev pub Left : (ℕ → Bool) → Pool → Type 0
Left used c = IsPool c used ⊎ ((k : ℕ) × (used k ≡ false) × IsPool c (with_fid used k))

-- A fid that was free is in use now.
abbrev pub Taken : (ℕ → Bool) → Pool → Cfid → Type 0
Taken used c f = (used f.fid ≡ false) × IsPool c (with_fid used f.fid)

module _ {ℓ} {S : Type ℓ} where
  -- What a walk leaves.
  abbrev Walked : (ℕ → Bool) → Pool × S × Option Cfid → Type 0
  Walked used (c, s, none) = IsPool c used
  Walked used (c, s, some f) = Taken used c f × (c.lastfid + 1 < 2 ^ 32)

  -- What an open leaves: an open file on a fid of its own, or no file.
  abbrev pub Opened : (ℕ → Bool) → ℕ → Pool × S × Option Cfid → Type 0
  Opened used mode (c, s, none) = Left used c
  Opened used mode (c, s, some f) =
      Taken used c f × (f.is_open ≡ 1) × (f.offset ≡ 0) × (f.mode ≡ mode) × (0 < f.iounit)

  abbrev pub Created : (ℕ → Bool) → ℕ → Option (Pool × S × Option Cfid) → Type 0
  Created used mode none = Unit
  Created used mode (some r) = Opened used mode r

  -- A clunk that is answered gives the fid back, and one that is not leaves it in use.
  abbrev pub Clunked : (ℕ → Bool) → ℕ → Pool × S × Bool → Type 0
  Clunked used fid (c, s, true) = IsPool c (without_fid used fid)
  Clunked used fid (c, s, false) = IsPool c used
