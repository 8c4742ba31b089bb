-- ===== src/Request/Sending.antt =====
-- The answer that `mixp_respond` of libmixp/request.c sends, down to the bytes.
use libmixp.Base.{
  ℕ, suc, ◌+◌, ◌≤◌, ◌<◌, ◌≡◌, true, Option, none, some, ◌++◌, Bytes, length, ◌==◌, if◌then◌else◌,
}
use libmixp.Convert.{Message}
use libmixp.Fcall.{Fcall, fcall_type, dump}
use libmixp.Message.Wire.{IsPackable}
use libmixp.Message.Frame.{frame_size, frame}
use libmixp.Transport.{System}
use libmixp.Transport.Send.{Output}
use libmixp.Intmap.{Intmap, bucket, lookupkey}
use libmixp.Intmap.Refines.{IsPlaced}
use libmixp.Intmap.Delete.{in_reach}
use libmixp.Request.{Request}
use libmixp.Request.Reply.{Session, Reply, responded, answer_fields, error_of, completed, finish}

-- An answer that fits into the buffer and can be packed.
pub record IsSendable (m : Message) (of : Fcall) : Type 0 where
  pub packable : IsPackable (fcall_type of.type) of
  pub shown : Bytes
  pub dumps : dump (fcall_type of.type) of ≡ some shown
  pub fits : frame_size of ≤ m.size
  pub backed : m.size ≤ length m.buf

-- What `mixp_respond` answers to a request, when the fids are those of `c`.
abbrev pub answer_to : Session → ℕ → Option Bytes → Fcall
answer_to s a error =
    let r = s.requests a in
    let t = fcall_type r.ifcall.type in
    completed r.ifcall (error_of t r error) (answer_fields s t r)

module _ {W : Type 0} (system : System W) (output : Output system) where
  -- The answer has been sent, the request's tag is free and every other tag is as it was.
  abbrev pub Replied : W → ℕ → Intmap ℕ → Fcall → Reply W → Type 0
  Replied w tag tags of r =
      (w1 : W) × (s1 : Session) × (r ≡ responded w1 s1)
      × (output.written w1 ≡ output.written w ++ frame of)
      × ((q : ℕ) → lookupkey s1.conn.tagmap q ≡ (if q == tag then none else lookupkey tags q))
      × IsPlaced s1.conn.tagmap

  abbrev Finishes : ℕ → W → Session → ℕ → Option Bytes → Request → Type 0
  Finishes rounds w s a error r =
      s.linked ≡ true
      → IsPlaced s.conn.tagmap
      → in_reach r.ifcall.tag (bucket s.conn.tagmap r.ifcall.tag) ≡ true
      → IsSendable s.wmsg (completed r.ifcall error r.ofcall)
      → frame_size (completed r.ifcall error r.ofcall) + output.patience w < suc (suc rounds)
      → Replied w r.ifcall.tag s.conn.tagmap (completed r.ifcall error r.ofcall)
          (finish system (suc (suc rounds)) w s a error)
