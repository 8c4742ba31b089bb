-- ===== src/Client/Mount.antt =====
-- `mixp_mountfd` of libmixp/client.c: the version and the size of messages are agreed on, and the root is
-- attached. `user` is what the environment has for USER, and `hang_up` is what `shutdown` and `close` do to the
-- connection.
use libmixp.Base.{
  ℕ, ◌+◌, ◌-◌, ◌^◌, ◌≤◌, ◌≡◌, Bool, true, false, ◌&&◌, Option, none, some, List, [], leb, ◌==◌,
  if◌then◌else◌,
}
use libmixp.Compound.{Str, text_of}
use libmixp.Fcall.{Fcall, blank}
use libmixp.Request.{same_bytes, current_version}
use libmixp.Client.{Cfid, Pool, do_fcall}
use libmixp.Client.Fids.{IsPool}
use libmixp.Client.Files.{root_fid}

-- The part of MIXP_CLIENT that a mount sets up: the sizes of its two messages are `rsize` and `wsize`.
pub record Mounted : Type 0 where
  pub pool : Pool
  pub mintag : ℕ
  pub maxtag : ℕ
  pub rsize : ℕ
  pub wsize : ℕ

abbrev pub max_msg : ℕ
max_msg = 8192

abbrev pub notag : ℕ
notag = 65535

unfoldable pub allocmsg : Mounted → ℕ → Mounted
allocmsg c n = record c { rsize = n; wsize = n }

abbrev pub version_request : Fcall
version_request = record blank { type = 100; msize = max_msg; version = some current_version }

abbrev pub attach_request : Str → Fcall
attach_request user = record blank {
  type = 104;
  fid = root_fid;
  afid = 2 ^ 32 - 1;
  uname = user;
  aname = some [];
}

-- What the client is while the version is asked for.
unfoldable pub new_client : Mounted
unfolding allocmsg
new_client =
    allocmsg
      (record {
        pool = record { lastfid = root_fid; freefid = [] };
        mintag = notag;
        maxtag = notag + 1;
        rsize = 0;
        wsize = 0;
      })
      256

unfoldable pub good_version : Fcall → Bool
good_version ret = same_bytes (text_of ret.version) current_version && leb ret.msize max_msg

unfoldable pub agreed : Mounted → Fcall → Mounted
unfolding allocmsg
agreed c ret = allocmsg (record c { mintag = 0; maxtag = 255 }) ret.msize

module _ {ℓ} {S : Type ℓ} (hang_up : S → S) where
  -- The state behind it, and the fids that are given back.
  unfoldable pub mixp_unmount : Mounted → S → S × List Cfid
  mixp_unmount c s = (hang_up s, c.pool.freefid)

  unfoldable pub attach_answer : Mounted → S × Option Fcall → S × Option Mounted
  attach_answer c (s, none) = ((mixp_unmount c s).0, none)
  attach_answer c (s, some ret) = (s, some c)

module _ {ℓ} {S : Type ℓ} (muxrpc : S → Fcall → S × Option Fcall) (hang_up : S → S)
    (user : Str) where
  unfoldable pub version_replied : Mounted → S × Option Fcall → S × Option Mounted
  version_replied c (s, none) = ((mixp_unmount hang_up c s).0, none)
  version_replied c (s, some ret) =
      if good_version ret
      then attach_answer hang_up (agreed c ret) (do_fcall muxrpc s (attach_request user))
      else ((mixp_unmount hang_up c s).0, none)

  unfoldable pub mixp_mountfd : S → S × Option Mounted
  mixp_mountfd s = version_replied new_client (do_fcall muxrpc s version_request)

-- What a client that was mounted on this answer has.
pub record Agreed (ret : Fcall) (c : Mounted) : Type 0 where
  pub version : text_of ret.version ≡ current_version
  pub bounded : ret.msize ≤ max_msg
  pub rsize : c.rsize ≡ ret.msize
  pub wsize : c.wsize ≡ ret.msize
  pub mintag : c.mintag ≡ 0
  pub maxtag : c.maxtag ≡ 255
  pub pool : IsPool c.pool (λ fid. fid == root_fid)

module _ {ℓ} {S : Type ℓ} (muxrpc : S → Fcall → S × Option Fcall) (hang_up : S → S) (user : Str)
    (s : S) where
  -- Which answers a mount succeeds on, and with what.
  abbrev pub Mounts : S × Option Fcall → S × Option Mounted → Type ℓ
  Mounts (s1, none) r = r ≡ (hang_up s1, none)
  Mounts (s1, some ret) r =
      (good_version ret ≡ false → r ≡ (hang_up s1, none))
      × (good_version ret ≡ true
          → let (s2, attached) = do_fcall muxrpc s1 (attach_request user) in
            (attached ≡ none → r ≡ (hang_up s2, none))
            × ((root : Fcall)
                → attached ≡ some root
                → (c : Mounted) × (r ≡ (s2, some c)) × Agreed ret c))
