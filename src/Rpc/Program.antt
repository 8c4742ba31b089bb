-- ===== src/Rpc/Program.antt =====
-- `muxrpc` of libmixp/rpc.c as the program of one caller, with `sendrpc` and `muxrecv`, run with no other thread
-- between its steps. Where it would wait for another thread, it stops.
use libmixp.Base.{ℕ, zero, suc, ◌%◌, ◌^◌, Option, none, some, ◌==◌, if◌then◌else◌}
use libmixp.Convert.{Message}
use libmixp.Fcall.{Fcall, blank}
use libmixp.Message.{fcall2msg, msg2fcall}
use libmixp.Transport.{System, recvmsg, sendmsg}
use libmixp.Rpc.{
  Mux, Got, got, sleeps, aborts, initrpc, gettag, puttag, enqueue, dequeue, dispatchandqlock,
  electmuxer,
}

-- The part of MIXP_CLIENT for calls, with its two messages.
pub record Link : Type 0 where
  pub mux : Mux
  pub rmsg : Message
  pub wmsg : Message

-- `waits` is for a tag or for the muxer, `crashes` a failed assertion or a NULL in rpc.c, `faults` a memory fault in
-- the code of the messages, and `loops` a loop that has not ended.
pub data Called {ℓ} (W : Type ℓ) : Type ℓ where
  waits crashes faults loops : Called W
  returns : W → Link → Option Fcall → Called W

pub data Received {ℓ} (W : Type ℓ) : Type ℓ where
  unread undecoded : Received W
  incoming : W → Message → Option Fcall → Received W

abbrev pub with_mux : Link → Mux → Link
with_mux l m = record l { mux = m }

module _ {ℓ} {W : Type ℓ} where
  unfoldable pub message_of : W → Option (Message × Fcall × ℕ) → Received W
  message_of w none = undecoded
  message_of w (some (msg, f, zero)) = incoming w msg none
  message_of w (some (msg, f, suc n)) = incoming w msg (some f)

  unfoldable pub arrived : Option (W × Message × ℕ) → Received W
  arrived none = unread
  arrived (some (w, msg, zero)) = incoming w msg none
  arrived (some (w, msg, suc n)) = message_of w (msg2fcall msg blank)

  unfoldable pub released : W → Link → Option Fcall → Option Mux → Called W
  released w l p none = crashes
  released w l p (some m) = returns w (with_mux l m) p

  -- Behind `dequeue`, where a message could not be sent.
  unfoldable pub given_up : W → Link → ℕ → Option Mux → Called W
  given_up w l r none = crashes
  given_up w l r (some m) = released w l none (puttag m r)

  unfoldable pub unsent : W → Link → ℕ → Called W
  unsent w l r = given_up w l r (dequeue l.mux r)

  unfoldable pub finished : W → Link → ℕ → Called W
  finished w l r = let m = electmuxer l.mux in released w (with_mux l m) (m.rpcs r).p (puttag m r)

  -- Behind `dequeue`, where nothing could be received.
  unfoldable pub at_eof : W → Link → ℕ → Option Mux → Called W
  at_eof w l r none = crashes
  at_eof w l r (some m) = finished w (with_mux l m) r

  unfoldable pub dispatched : (W → Link → Called W) → Link → ℕ → Received W → Called W
  dispatched again l r unread = loops
  dispatched again l r undecoded = faults
  dispatched again l r (incoming w msg none) =
      at_eof w (record l { rmsg = msg }) r (dequeue l.mux r)
  dispatched again l r (incoming w msg (some f)) =
      again w (record l { rmsg = msg; mux = dispatchandqlock l.mux f })

  unfoldable pub unless_answered : Option Fcall → Called W → Called W → Called W
  unless_answered none receive done = receive
  unless_answered (some p) receive done = done

module _ {ℓ} {W : Type ℓ} (system : System W) where
  unfoldable pub muxrecv : ℕ → W → Message → Received W
  muxrecv rounds w rmsg = arrived (recvmsg system rounds w rmsg)

  -- `while(!rpc.p)` of the muxer.
  unfoldable pub mux_loop : ℕ → ℕ → W → Link → ℕ → Called W
  mux_loop zero rounds w l r = loops
  mux_loop (suc turns) rounds w l r =
      unless_answered (l.mux.rpcs r).p
        (dispatched (λ w1 l1. mux_loop turns rounds w1 l1 r) l r (muxrecv rounds w l.rmsg))
        (finished w l r)

  unfoldable pub start_muxing : ℕ → ℕ → W → Link → ℕ → Called W
  start_muxing turns rounds w l r =
      mux_loop turns rounds w (with_mux l (record l.mux { muxer = some r })) r

  unfoldable pub await : ℕ → ℕ → W → Link → ℕ → Option ℕ → Called W
  await turns rounds w l r none = start_muxing turns rounds w l r
  await turns rounds w l r (some q) = if q == r then start_muxing turns rounds w l r else waits

  unfoldable pub after_sending : ℕ → ℕ → Link → ℕ → Option (W × Message × ℕ) → Called W
  after_sending turns rounds l r none = loops
  after_sending turns rounds l r (some (w, msg, zero)) = unsent w (record l { wmsg = msg }) r
  after_sending turns rounds l r (some (w, msg, suc n)) =
      await turns rounds w (record l { wmsg = msg }) r l.mux.muxer

  unfoldable pub after_packing : ℕ → ℕ → W → Link → ℕ → Option (Message × Fcall × ℕ) → Called W
  after_packing turns rounds w l r none = faults
  after_packing turns rounds w l r (some (msg, f, zero)) = unsent w (record l { wmsg = msg }) r
  after_packing turns rounds w l r (some (msg, f, suc n)) =
      after_sending turns rounds l r (sendmsg system rounds w msg)

  unfoldable pub with_tag : ℕ → ℕ → W → Link → ℕ → Fcall → Got → Called W
  with_tag turns rounds w l r tx sleeps = waits
  with_tag turns rounds w l r tx aborts = crashes
  with_tag turns rounds w l r tx (got m t) =
      after_packing turns rounds w (with_mux l (enqueue m r)) r
        (fcall2msg l.wmsg (record tx { tag = t % 2 ^ 16 }))

  unfoldable pub muxrpc : ℕ → ℕ → W → Link → ℕ → Fcall → Called W
  muxrpc turns rounds w l r tx = with_tag turns rounds w l r tx (gettag (initrpc l.mux r) r)
