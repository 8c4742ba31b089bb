-- ===== src/Request/Arriving.antt =====
-- From the bytes of a request to `handlereq`, in `handlefcall` of libmixp/request.c.
use libmixp.Base.{ℕ, ◌+◌, ◌≡◌, true, some, ◌∷◌, ◌==◌, if◌then◌else◌}
use libmixp.Convert.{Message}
use libmixp.Fcall.{Fcall}
use libmixp.Intmap.{bucket, set_bucket, lookupkey}
use libmixp.Intmap.Refines.{IsPlaced}
use libmixp.Request.{Request}
use libmixp.Request.Reply.{Session, with_request, with_conn}
use libmixp.Request.Incoming.{new_request, req_alloc}

-- The session `t` has the request `f` at `a`, under its tag; all else is as in `s`.
pub record Registered (s t : Session) (a : ℕ) (f : Fcall) : Type 0 where
  pub request : t.requests a ≡ record new_request { ifcall = f }
  pub tags :
      (q : ℕ)
      → lookupkey t.conn.tagmap q ≡ (if q == f.tag then some a else lookupkey s.conn.tagmap q)
  pub placed : IsPlaced t.conn.tagmap
  pub fidmap : t.conn.fidmap ≡ s.conn.fidmap
  pub fids : t.conn.fids ≡ s.conn.fids
  pub next : t.conn.next ≡ s.conn.next + 1
  pub ref : t.conn.ref ≡ s.conn.ref + 1
  pub linked : t.linked ≡ true
  pub wmsg : t.wmsg ≡ s.wmsg

-- The request as it is decoded, at the address of the last allocation.
entered : Session → Message → Fcall → Session
entered s msg f =
    let s1 = record (req_alloc s) { rmsg = msg } in
    record (with_request s1 s.conn.next (record (s1.requests s.conn.next) { ifcall = f })) {
      linked = true;
    }

registered : Session → Message → Fcall → Session
unfolding entered
registered s msg f =
    let s1 = entered s msg f in
    let tags = s.conn.tagmap in
    let chain = record { id = f.tag; aux = s.conn.next } ∷ bucket tags f.tag in
    with_conn s1 (record s1.conn { tagmap = set_bucket tags f.tag chain })
