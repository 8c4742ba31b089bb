-- ===== src/Client/Writing.antt =====
-- `_pwrite` and `mixp_write` of libmixp/client.c: what a server's file and the fid are afterwards.
use libmixp.Base.{ℕ, ◌-◌, ◌≡◌, Option, some, Bytes, length, read_at, write_at}
use mathlib.Core.Option
use libmixp.Fcall.{Fcall}
use libmixp.Client.{Cfid, write_request}
use libmixp.Client.Rounds.{moved}

-- The server does what a write asks for, at any time, and says that it has written all of it. The file
-- is long enough.
pub record Stores {S : Type 0} (muxrpc : S → Fcall → S × Option Fcall) (fid : ℕ) : Type 0 where
  pub content : S → Bytes
  pub reply : ℕ → Fcall
  pub type : (n : ℕ) → (reply n).type ≡ 119
  pub count : (n : ℕ) → (reply n).count ≡ n
  pub sends :
      (s : S) (f : Cfid) (bs : Bytes)
      → f.fid ≡ fid
      → (muxrpc s (write_request f (length bs) bs)).1 ≡ some (reply (length bs))
  pub stores :
      (s : S) (f : Cfid) (bs : Bytes)
      → f.fid ≡ fid
      → content (muxrpc s (write_request f (length bs) bs)).0 ≡ write_at (content s) f.offset bs

module _ {S : Type 0} (muxrpc : S → Fcall → S × Option Fcall) (fid : ℕ)
    (server : Stores muxrpc fid) where
  abbrev Wrote : Option (S × Cfid × Option ℕ) → S → Cfid → Bytes → ℕ → Type 0
  Wrote result s f buf len =
      (s1 : S) × (result ≡ some (s1, moved f (length buf - len), some (length buf)))
      × (server.content s1
          ≡ write_at (server.content s) f.offset (read_at buf len (length buf - len)))
