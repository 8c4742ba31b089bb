-- ===== src/Request/Flushing.antt =====
-- Tflush in `mixp_respond` of libmixp/request.c: the old request is answered before.
use libmixp.Base.{ℕ, zero, suc, ◌≡◌, refl, ap, ◌∙◌, Option, some, Bytes, ==_refl, if_true}
use libmixp.Fcall.{t_flush, fcall_type}
use libmixp.Transport.{System}
use libmixp.Intmap.{lookupkey}
use libmixp.Request.{Request, interrupted}
use libmixp.Request.Reply.{
  Session, Reply, loops, error_text, with_request, continued, flush_old, respond_as, mixp_respond,
}

-- A request at `a` that flushes a tag under which the map has `a` itself.
pub record FlushesItself (s : Session) (a : ℕ) : Type 0 where
  pub type : fcall_type (s.requests a).ifcall.type ≡ t_flush
  pub itself : lookupkey s.conn.tagmap (s.requests a).ifcall.oldtag ≡ some a

module _ {ℓ} {W : Type ℓ} (system : System W) where
  noted : Session → ℕ → Session
  noted s a = with_request s a (record (s.requests a) { oldreq = some a })

  noted-FlushesItself : (s : Session) (a : ℕ) → FlushesItself s a → FlushesItself (noted s a) a
  unfolding noted
  noted-FlushesItself s a f =
      let here : (noted s a).requests a ≡ record (s.requests a) { oldreq = some a } =
        if_true _ (==_refl a) in
      record {
        type = ap (λ (r : Request). fcall_type r.ifcall.type) here ∙ f.type;
        itself = ap (λ (r : Request). lookupkey s.conn.tagmap r.ifcall.oldtag) here ∙ f.itself;
      }

  as_flush :
      (respond : W → Session → ℕ → Reply W) (rounds : ℕ) (w : W) (s : Session) (a : ℕ)
      (error : Option Bytes)
      → lookupkey s.conn.tagmap (s.requests a).ifcall.oldtag ≡ some a
      → respond_as system respond rounds w s a error t_flush
        ≡ continued system rounds a error (respond w (noted s a) a)
  unfolding respond_as flush_old noted
  as_flush respond rounds w s a error e =
      ap
        (λ (old : Option ℕ).
          flush_old system respond rounds w
            (with_request s a (record (s.requests a) { oldreq = old })) a error old)
        e

  -- The answer to a request that flushes its own tag never ends, however deep the calls may be in each other:
  -- its tag is still in the map, and so it is the old request that is answered before.
  pub mixp_respond-loops :
      (depth rounds : ℕ) (w : W) (s : Session) (a : ℕ) (error : Option Bytes)
      → FlushesItself s a
      → mixp_respond system depth rounds w s a error ≡ loops
  unfolding mixp_respond continued
  mixp_respond-loops zero rounds w s a error f = refl
  mixp_respond-loops (suc depth) rounds w s a error f =
      ap
        (respond_as system
          (λ w1 s1 old. mixp_respond system depth rounds w1 s1 old (some (error_text interrupted)))
          rounds w s a error)
        f.type
      ∙ as_flush _ rounds w s a error f.itself
      ∙ ap (continued system rounds a error) (
          mixp_respond-loops depth rounds w (noted s a) a (some (error_text interrupted))
            (noted-FlushesItself s a f))
