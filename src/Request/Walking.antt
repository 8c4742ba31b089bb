-- ===== src/Request/Walking.antt =====
-- libmixp/request.c: a fid that is made for a request which then fails.
use libmixp.Base.{ℕ, ◌+◌, ◌≡◌, refl, Bool, none, some, ◌∷◌, ◌==◌, if◌then◌else◌}
use libmixp.Compound.{zero_qid}
use libmixp.Fcall.{t_attach, fcall_type}
use libmixp.Intmap.{Intmap, bucket, set_bucket, lookupkey}
use libmixp.Intmap.Refines.{IsPlaced, taken}
use libmixp.Request.{
  Conn, Request, dup_fid, Op, responds, not_open, createfid, handlereq, handle_type, attached,
}
use libmixp.Request.Answer.{faults, attach_failed, respond_type, respond, failed}

abbrev with_key : Intmap ℕ → ℕ → ℕ → Intmap ℕ
with_key map id value = set_bucket map id (record { id = id; aux = value } ∷ bucket map id)

-- The connection with one fid more.
abbrev made : Conn → ℕ → Conn
made c fid = record c {
  fidmap = with_key c.fidmap fid c.next;
  fids =
      λ a. if a == c.next then record { fid = fid; qid = zero_qid; omode = not_open } else c.fids a;
  next = c.next + 1;
  ref = c.ref + 1;
}

-- The fids are as they were.
pub record Restored (c after : Conn) : Type 0 where
  pub same : (q : ℕ) → lookupkey after.fidmap q ≡ lookupkey c.fidmap q
  pub same_ref : after.ref ≡ c.ref
  pub fine : IsPlaced after.fidmap

module _ (has : Op → Bool) (c : Conn) (r : Request) (p : IsPlaced c.fidmap) where
  -- The reference and the allocation of a fid that could not be inserted.
  abbrev refused : Conn
  refused = record c {
    fids = λ a.
        if a == c.next
        then record { fid = r.ifcall.fid; qid = zero_qid; omode = not_open }
        else c.fids a;
    next = c.next + 1;
    ref = c.ref + 1;
  }

  handle_type-attach :
      (old : ℕ)
      → lookupkey c.fidmap r.ifcall.fid ≡ some old
      → handle_type has c t_attach r ≡ (refused, record r { fid = none }, responds (some dup_fid))
  unfolding handle_type createfid attached
  handle_type-attach old e = rw (taken c.fidmap p r.ifcall.fid c.next old e) refl

  -- An attach on a fid that is in use is refused, and the refusal itself reads through NULL: the answer
  -- looks for the fid that was not made.
  pub attach_faults :
      (rounds old : ℕ)
      → fcall_type r.ifcall.type ≡ t_attach
      → lookupkey c.fidmap r.ifcall.fid ≡ some old
      → (c1 : Conn) × (r1 : Request) × (handlereq has c r ≡ (c1, r1, responds (some dup_fid)))
        × (respond rounds c1 r1 (some dup_fid) ≡ faults)
  unfolding handlereq respond respond_type attach_failed failed
  attach_faults rounds old t e =
      (refused, record r { fid = none }, rw t (handle_type-attach old e), rw t)

  -- What a walk to a new fid leaves before the file system's function is called.
  on_the_way : ℕ → Request
  on_the_way a = record r { fid = some a; newfid = some c.next }
