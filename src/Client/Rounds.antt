-- ===== src/Client/Rounds.antt =====
-- A round of `_pwrite` of libmixp/client.c.
use libmixp.Base.{
  ℕ, suc, ◌+◌, ◌-◌, ◌≡◌, refl, Option, none, some, Bytes, length, read_at, ltb, ltb_le,
  if◌then◌else◌, arith,
}
use libmixp.Fcall.{Fcall}
use libmixp.Client.{Cfid, smaller, write_request, do_fcall, pwrite_loop}

-- The fid a number of bytes further on.
abbrev pub moved : Cfid → ℕ → Cfid
moved f n = record f { offset = f.offset + n }

module _ {S : Type 0} (muxrpc : S → Fcall → S × Option Fcall) where
  -- The rest of a round of the loop behind the answer.
  pub continue : ℕ → Cfid → Bytes → ℕ → ℕ → S → Option Fcall → Option (S × Cfid × Option ℕ)
  continue rounds f buf len n s ret = elim ret [
    | none ↦ some (s, f, none)
    | some r ↦
        let done = some (s, moved f r.count, some (len + r.count)) in
        let again = pwrite_loop muxrpc rounds s (moved f r.count) buf (len + r.count) in
        if ltb n n then done else (if ltb (len + r.count) (length buf) then again else done)
  ]

  pub round :
      (rounds : ℕ) (s : S) (f : Cfid) (buf : Bytes) (len : ℕ)
      → let n = smaller (length buf - len) f.iounit in
        let answer = do_fcall muxrpc s (write_request f n (read_at buf len n)) in
        pwrite_loop muxrpc (suc rounds) s f buf len ≡ continue rounds f buf len n answer.0 answer.1
  unfolding pwrite_loop continue
  round rounds s f buf len = refl

  pub went_on :
      (rounds n k : ℕ) (s : S) (f : Cfid) (buf : Bytes) (len : ℕ) (r : Fcall)
      → r.count ≡ k
      → continue rounds f buf len n s (some r) ≡ (
          if ltb (len + k) (length buf)
          then pwrite_loop muxrpc rounds s (moved f k) buf (len + k)
          else some (s, moved f k, some (len + k)))
  unfolding continue
  went_on rounds n k s f buf len r e = rw (e, ltb_le n n (omega arith)) refl
