-- ===== src/Client/Stalled.antt =====
-- `_pwrite` of libmixp/client.c, against a server that writes nothing.
use libmixp.Base.{
  lt→ltb, if_true, ℕ, zero, suc, ◌-◌, ◌<◌, ◌≡◌, refl, ap, ◌∙◌, Option, none, some, Bytes, length,
  read_at,
}
use libmixp.Fcall.{Fcall}
use libmixp.Client.{Cfid, accept, smaller, write_request, do_fcall, pwrite_loop, pwrite}
use libmixp.Client.Rounds.{moved, continue, round, went_on}

-- The server answers every write, and says that it has written nothing.
pub record WritesNothing {S : Type 0} (muxrpc : S → Fcall → S × Option Fcall) : Type 0 where
  pub reply : Fcall
  pub type : reply.type ≡ 119
  pub count : reply.count ≡ 0
  pub sends :
      (s : S) (f : Cfid) (n : ℕ) (bs : Bytes) → (muxrpc s (write_request f n bs)).1 ≡ some reply

module _ {S : Type 0} (muxrpc : S → Fcall → S × Option Fcall) (server : WritesNothing muxrpc) where
  answered :
      (s : S) (f : Cfid) (n : ℕ) (bs : Bytes)
      → (do_fcall muxrpc s (write_request f n bs)).1 ≡ some server.reply
  unfolding do_fcall accept
  answered s f n bs = rw (server.sends s f n bs, server.type) refl

  -- The next round starts where this one did.
  same_place :
      (rounds n : ℕ) (s : S) (f : Cfid) (buf : Bytes)
      → 0 < length buf
      → continue muxrpc rounds f buf 0 n s (some server.reply)
        ≡ pwrite_loop muxrpc rounds s (moved f 0) buf 0
  same_place rounds n s f buf some_bytes =
      went_on muxrpc rounds n 0 s f buf 0 server.reply server.count
      ∙ if_true _ (lt→ltb 0 (length buf) some_bytes)

  pwrite_loop-stalls :
      (rounds : ℕ) (s : S) (f : Cfid) (buf : Bytes)
      → 0 < length buf
      → pwrite_loop muxrpc rounds s f buf 0 ≡ none
  unfolding pwrite_loop
  pwrite_loop-stalls zero s f buf some_bytes = refl
  pwrite_loop-stalls (suc rounds) s f buf some_bytes =
      let n = smaller (length buf - 0) f.iounit in
      let bs = read_at buf 0 n in
      let s1 = (do_fcall muxrpc s (write_request f n bs)).0 in
      round muxrpc rounds s f buf 0
      ∙ ap (continue muxrpc rounds f buf 0 n s1) (answered s f n bs)
      ∙ same_place rounds n s1 f buf some_bytes
      ∙ pwrite_loop-stalls rounds s1 (moved f 0) buf some_bytes

  -- Against a server that says of every write that nothing was written, writing a byte or more never
  -- ends.
  pub pwrite_stalls :
      (rounds : ℕ) (s : S) (f : Cfid) (buf : Bytes) (offset : ℕ)
      → 0 < length buf
      → pwrite muxrpc rounds s f buf offset ≡ none
  unfolding pwrite
  pwrite_stalls rounds s f buf offset some_bytes = pwrite_loop-stalls rounds s f buf some_bytes
