-- ===== src/Transport.antt =====
-- libmixp/transport.c: messages sent to and received from a file descriptor. The system behind the
-- descriptor is the parameter `W`: `read` and `write` are the calls of `mixp_thread`, `none` for -1,
-- and `eintr` says whether `errno` is EINTR. A loop is given rounds; `none` is a loop that is still
-- running when they are used up.
pub mod Stream
pub mod Receive
pub mod Send
use libmixp.Base.{
  ℕ, zero, suc, ◌+◌, ◌-◌, ◌%◌, ◌^◌, Bool, true, false, Option, none, some, List, [], ◌∷◌, Bytes,
  length, read_at, write_at, ltb, leb, ◌==◌, if◌then◌else◌,
}
use mathlib.Core.Option
use libmixp.Convert.{Message, msg_unpack, pu32}

pub record System {ℓ} (W : Type ℓ) : Type ℓ where
  pub read : W → ℕ → W × Option Bytes
  pub write : W → Bytes → W × Option ℕ
  pub eintr : W → Bool

-- `n > count ? count : n`
abbrev pub at_most : ℕ → ℕ → ℕ
at_most n count = if ltb count n then count else n

-- `count - num`, an `int`
abbrev pub returned : ℕ → ℕ → ℕ
returned count num = (2 ^ 64 + count - num) % 2 ^ 32

-- What the loop of `readn` does with the result of `mread`: `none` goes on with the number of bytes
-- that are still wanted, which -1 increases.
unfoldable pub still_wanted : Bool → ℕ → Option ℕ → Option ℕ
still_wanted interrupted num none = if interrupted then some num else some (num + 1)
still_wanted interrupted num (some zero) = none
still_wanted interrupted num (some (suc r)) = some (num - suc r)

-- `write` gave `r`; whether the loop goes on, and from where.
unfoldable pub sent : Bool → Message → Option ℕ → Option Message
sent interrupted msg none = if interrupted then some msg else none
sent interrupted msg (some zero) = if interrupted then some msg else none
sent interrupted msg (some (suc r)) = some (record msg { pos = msg.pos + suc r })

-- `msize - SSize`, unsigned
abbrev pub payload_size : ℕ → ℕ
payload_size msize = (msize + 2 ^ 32 - 4) % 2 ^ 32

-- Bytes that are read go to `pos`.
unfoldable pub stored {ℓ} : {W : Type ℓ} → Message → W × Option Bytes → W × Message × Option ℕ
stored msg (w, none) = (w, msg, none)
stored msg (w, some bs) = (
  w,
  record msg { buf = write_at msg.buf msg.pos bs; pos = msg.pos + length bs },
  some (length bs),
)

module _ {ℓ} {W : Type ℓ} (system : System W) where
  -- The number that `read` gave; `none` for -1, also for a full buffer.
  unfoldable pub mread : W → Message → ℕ → W × Message × Option ℕ
  mread w msg count =
      if leb msg.end msg.pos
      then (w, msg, none)
      else stored msg (system.read w (at_most (msg.end - msg.pos) count))

  unfoldable pub readn_loop : ℕ → W → Message → ℕ → ℕ → Option (W × Message × ℕ)
  readn_loop zero w msg num count = none
  readn_loop (suc rounds) w msg zero count = some (w, msg, count)
  readn_loop (suc rounds) w msg (suc num) count =
      let (w1, msg1, r) = mread w msg (suc num) in
      elim (still_wanted (system.eintr w1) (suc num) r) [
        | none ↦ some (w1, msg1, returned count (suc num))
        | some left ↦ readn_loop rounds w1 msg1 left count
      ]

  unfoldable pub readn : ℕ → W → Message → ℕ → Option (W × Message × ℕ)
  readn rounds w msg count = readn_loop rounds w msg count count

  unfoldable pub send_loop : ℕ → W → Message → Option (W × Message × ℕ)
  send_loop zero w msg = none
  send_loop (suc rounds) w msg =
      let (w1, r) = system.write w (read_at msg.buf msg.pos (msg.end - msg.pos)) in
      let onward : Option (W × Message × ℕ) = elim (sent (system.eintr w1) msg r) [
        | none ↦ some (w1, msg, 0)
        | some msg1 ↦ send_loop rounds w1 msg1
      ] in
      if ltb msg.pos msg.end then onward else some (w, msg, msg.pos)

  unfoldable pub sendmsg : ℕ → W → Message → Option (W × Message × ℕ)
  sendmsg rounds w msg = send_loop rounds w (record msg { pos = 0 })

  unfoldable pub got_payload : ℕ → ℕ → W × Message × ℕ → W × Message × ℕ
  got_payload msize size (w, msg, r) =
      if r == size then (w, record msg { end = msg.pos }, msize) else (w, msg, 0)

  unfoldable pub read_payload : ℕ → W → Message → ℕ → Option (W × Message × ℕ)
  read_payload rounds w msg msize =
      let size = payload_size msize in
      if leb msg.end (msg.pos + size)
      then some (w, msg, 0)
      else Option.map (got_payload msize size) (readn rounds w msg size)

  unfoldable pub got_size : ℕ → W × Message × ℕ → Option (W × Message × ℕ)
  got_size rounds (w, msg, r) =
      let (msg1, msize) = pu32 (record msg { pos = 0 }) 0 in
      if r == 4 then read_payload rounds w msg1 msize else some (w, msg, 0)

  unfoldable pub recvmsg : ℕ → W → Message → Option (W × Message × ℕ)
  recvmsg rounds w msg =
      let msg0 = record msg { mode = msg_unpack; pos = 0; end = msg.size } in
      Option.bind (readn rounds w msg0 4) (got_size rounds)
