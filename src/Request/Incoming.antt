-- ===== src/Request/Incoming.antt =====
-- `handlefcall` of libmixp/request.c, which a server's loop calls where a connection can be read, with the
-- allocation of the request and the references of the connection.
use libmixp.Base.{
  ℕ, zero, suc, ◌+◌, ◌-◌, Bool, true, false, Option, none, some, ltb, ◌==◌, if◌then◌else◌,
}
use mathlib.Core.Option
use libmixp.Convert.{Message}
use libmixp.Fcall.{Fcall, blank}
use libmixp.Message.{msg2fcall}
use libmixp.Transport.{System, recvmsg}
use libmixp.Intmap.{Intmap, caninsertkey}
use libmixp.Request.{Request, Op, Outcome, responds, calls, dup_tag, handlereq}
use libmixp.Request.Reply.{
  Session, Reply, crashes, loops, responded, cuts, error_text, with_request, with_conn,
  mixp_respond,
}

abbrev pub new_request : Request
new_request = record { fid = none; newfid = none; oldreq = none; ifcall = blank; ofcall = blank }

-- The request is at the address that was `next`.
unfoldable pub req_alloc : Session → Session
req_alloc s =
    let c = s.conn in
    record s {
      conn = record c { next = c.next + 1; ref = c.ref + 1 };
      requests = λ b. if b == c.next then new_request else s.requests b;
    }

-- `none` is a connection that has been given back.
unfoldable pub decref_p9conn : Session → Option Session
decref_p9conn s =
    let ref = s.conn.ref - 1 in
    if ltb 0 ref then some (with_conn s (record s.conn { ref = ref })) else none

-- `hangs_up` is the label Fail, `calls_op` the call of a function of the file system with the request, and
-- `given_back` a connection whose last reference is gone.
pub data Handled {ℓ} (W : Type ℓ) : Type ℓ where
  replies : Reply W → Handled W
  hangs_up : W → Session → Handled W
  calls_op : Op → W → Session → ℕ → Handled W
  given_back : W → Handled W

module _ {ℓ} {W : Type ℓ} where
  unfoldable pub unreferenced : W → Option Session → Handled W
  unreferenced w none = given_back w
  unreferenced w (some s) = replies (responded w s)

  -- `decref_p9conn(pc)` behind the answer to a duplicate tag.
  unfoldable pub refused : Reply W → Handled W
  refused crashes = replies crashes
  refused loops = replies loops
  refused (responded w s) = unreferenced w (decref_p9conn s)
  refused (cuts w s) = replies (cuts w s)

module _ {ℓ} {W : Type ℓ} (system : System W) (has : Op → Bool) where
  unfoldable pub run_outcome : ℕ → ℕ → W → Session → ℕ → Outcome → Handled W
  run_outcome depth rounds w s a (responds error) =
      replies (mixp_respond system depth rounds w s a (Option.map error_text error))
  run_outcome depth rounds w s a (calls op) = calls_op op w s a

  -- `handlereq(req)` with the answers that it gives itself.
  unfoldable pub handle_request : ℕ → ℕ → W → Session → ℕ → Handled W
  handle_request depth rounds w s a =
      let (c1, r1, outcome) = handlereq has s.conn (s.requests a) in
      run_outcome depth rounds w (with_request (with_conn s c1) a r1) a outcome

  unfoldable pub tagged : ℕ → ℕ → W → Session → ℕ → Intmap ℕ × Bool → Handled W
  tagged depth rounds w s a (tags, true) =
      handle_request depth rounds w (with_conn s (record s.conn { tagmap = tags })) a
  tagged depth rounds w s a (tags, false) = refused (
      mixp_respond system depth rounds w (with_conn s (record s.conn { tagmap = tags })) a
        (some (error_text dup_tag)))

  -- A request that has been decoded to the one at `a`; `pc->conn` is set.
  unfoldable pub accepted : ℕ → ℕ → W → Session → ℕ → Fcall → Handled W
  accepted depth rounds w s a f =
      let s1 = record (with_request s a (record (s.requests a) { ifcall = f })) { linked = true } in
      tagged depth rounds w s1 a (caninsertkey s.conn.tagmap f.tag a)

  unfoldable pub decoded : ℕ → ℕ → W → Session → ℕ → Option (Message × Fcall × ℕ) → Handled W
  decoded depth rounds w s a none = replies crashes
  decoded depth rounds w s a (some (msg, f, zero)) = hangs_up w (record s { rmsg = msg })
  decoded depth rounds w s a (some (msg, f, suc n)) =
      accepted depth rounds w (record s { rmsg = msg }) a f

  unfoldable pub taken_in : ℕ → ℕ → Session → ℕ → Option (W × Message × ℕ) → Handled W
  taken_in depth rounds s a none = replies loops
  taken_in depth rounds s a (some (w, msg, zero)) = hangs_up w (record s { rmsg = msg })
  taken_in depth rounds s a (some (w, msg, suc n)) =
      decoded depth rounds w s a (msg2fcall msg blank)

  unfoldable pub handlefcall : ℕ → ℕ → W → Session → Handled W
  handlefcall depth rounds w s =
      taken_in depth rounds (req_alloc s) s.conn.next (recvmsg system rounds w s.rmsg)
