-- ===== src/Rpc/Caller.antt =====
-- `muxrpc` of libmixp/rpc.c: its locked parts are steps of the runs, whatever arrives.
use libmixp.Base.{
  ℕ, ◌+◌, ◌-◌, ◌≡◌, ◌≢◌, ◌⊎◌, refl, sym, ap, ◌∙◌, inl, inr, true, false, Option, none, some,
  if◌then◌else◌, if_elim, if_true, if_false, ◌==◌, ==_refl, Bool-cases, ltb,
}
use mathlib.Core.Path.{subst}
use libmixp.Fcall.{Fcall}
use libmixp.Rpc.{
  Rpc, Mux, Got, got, sleeps, aborts, slot, grown, make_room, choose, take_slot, claim, gettag_in,
  initrpc, gettag, puttag, enqueue, dequeue, is_queued, unlink, hand_over, dispatchandqlock,
  with_rpc,
}
use libmixp.Rpc.Tags.{gettag-Fresh}
use libmixp.Rpc.Returned.{puttag-Freed, tag-slot}
use libmixp.Rpc.Queue.{is_queued-unlink}
use libmixp.Rpc.Runs.{
  starts, receives, muxes, withdraws, ends, Run, here, after, IsSound, initrpc-IsMux,
}
use libmixp.Rpc.Delivery.{Run-IsSound}

-- A caller with a tag: it is in the ring exactly as long as it has no answer.
pub record Calls (m0 m : Mux) (r : ℕ) : Type 0 where
  pub run : Run m0 m
  pub holds : (i : ℕ) × (slot m i ≡ some r)
  pub state :
      (((m.rpcs r).p ≡ none) × (is_queued r m.sleep ≡ true))
      ⊎ ((f : Fcall) × ((m.rpcs r).p ≡ some f) × (is_queued r m.sleep ≡ false))

-- A caller that is gone.
pub record Gone (m0 m : Mux) (r : ℕ) : Type 0 where
  pub run : Run m0 m
  pub no_slot : (j : ℕ) → slot m j ≢ some r
  pub out : is_queued r m.sleep ≡ false

abbrev HasCall : ℕ → Mux → Type 0
HasCall r m =
    ((i : ℕ) × (slot m i ≡ some r))
    × ((((m.rpcs r).p ≡ none) × (is_queued r m.sleep ≡ true))
        ⊎ ((f : Fcall) × ((m.rpcs r).p ≡ some f) × (is_queued r m.sleep ≡ false)))

module _ (m : Mux) (s : IsSound m) (r : ℕ) (call : HasCall r m) (f : Fcall) where
  handed_over : (o : Option ℕ) → HasCall r (hand_over m f o)
  unfolding hand_over with_rpc
  handed_over none = call
  handed_over (some q) =
      if_elim (HasCall r) (is_queued q m.sleep) _ m
        (λ queued. (
          call.0,
          elim (Bool-cases (r == q)) [
            | inl same ↦ inr (
              f,
              ap (λ (x : Rpc). x.p) (if_true _ same),
              is_queued-unlink r q m.sleep s.distinct ∙ if_true _ same,
            )
            | inr other ↦
                let kept_p = ap (λ (x : Rpc). x.p) (if_false _ other) in
                let kept_place = is_queued-unlink r q m.sleep s.distinct ∙ if_false _ other in
                elim call.1 [
                  | inl (no_p, queued) ↦ inl (kept_p ∙ no_p, kept_place ∙ queued)
                  | inr (g, has_p, out) ↦ inr (g, kept_p ∙ has_p, kept_place ∙ out)
                ]
          ],
        ))
        (λ absent. call)

  dispatched_call : HasCall r (dispatchandqlock m f)
  unfolding dispatchandqlock
  dispatched_call =
      let handed = hand_over m f (slot m (f.tag - m.mintag)) in
      if_elim (HasCall r) (ltb f.tag m.mintag) m
        (if ltb (f.tag - m.mintag) m.mwait then handed else m) (λ _. call)
        (λ _.
          if_elim (HasCall r) (ltb (f.tag - m.mintag) m.mwait) handed m
            (λ _. handed_over (slot m (f.tag - m.mintag))) (λ _. call))

module _ (m0 : Mux) (s0 : IsSound m0) (r : ℕ) where
  pub dispatch-Calls : (m : Mux) (f : Fcall) → Calls m0 m r → Calls m0 (dispatchandqlock m f) r
  dispatch-Calls m f c =
      let (holds, state) = dispatched_call m (Run-IsSound m0 m s0 c.run) r (c.holds, c.state) f in
      record { run = after c.run (receives f); holds = holds; state = state }

  pub muxes-Calls : (m : Mux) → Calls m0 m r → Calls m0 (record m { muxer = some r }) r
  muxes-Calls m c = record { run = after c.run (muxes r); holds = c.holds; state = c.state }

  -- Giving the tag back outside of the ring.
  pub puttag-Gone :
      (m : Mux) (i : ℕ)
      → Run m0 m
      → slot m i ≡ some r
      → is_queued r m.sleep ≡ false
      → (m1 : Mux) × (puttag m r ≡ some m1) × Gone m0 m1 r
  puttag-Gone m i run held out =
      let s = Run-IsSound m0 m s0 run in
      let (m1, e, freed) = puttag-Freed m i r s.tags held in
      (
        m1,
        e,
        record {
          run = after run (ends r i m1 held out e);
          no_slot = λ j has.
              if_elim (λ o. o ≡ some r → ⊥) ((m.rpcs r).tag - m.mintag == j) none (slot m j)
                (λ _ no. cc no)
                (λ other also.
                  let same = tag-slot m j r s.tags also in
                  absurd (cc (other, ap (λ (k : ℕ). k == j) same, ==_refl j)))
                (sym (freed.slots j) ∙ has);
          out = ap (is_queued r) freed.same_sleep ∙ out;
        },
      )

  pub dequeue-out :
      (m : Mux)
      → Run m0 m
      → is_queued r m.sleep ≡ true
      → (m1 : Mux) × (dequeue m r ≡ some m1)
        × Run m0 m1
        × ((i : ℕ) → slot m1 i ≡ slot m i)
        × (is_queued r m1.sleep ≡ false)
  unfolding dequeue
  dequeue-out m run queued =
      let s = Run-IsSound m0 m s0 run in
      let m1 : Mux = record m { sleep = unlink r m.sleep } in
      let e = if_true _ queued in
      (
        m1,
        e,
        after run (withdraws r m1 e),
        λ i. refl,
        is_queued-unlink r r m.sleep s.distinct ∙ if_true _ (==_refl r),
      )

  -- Where the caller has no answer, it is in the ring, and can leave it.
  pub leaves :
      (m : Mux)
      → Calls m0 m r
      → (m.rpcs r).p ≡ none
      → (m1 : Mux) × (dequeue m r ≡ some m1)
        × Run m0 m1
        × ((i : ℕ) → slot m1 i ≡ slot m i)
        × (is_queued r m1.sleep ≡ false)
  leaves m c no_p = elim c.state [
    | inl (same, queued) ↦ dequeue-out m c.run queued
    | inr (f, has_p, out) ↦ absurd (cc (no_p, has_p))
  ]

-- `gettag` does not touch what has been handed over.
module _ (m : Mux) (r : ℕ) where
  abbrev Keeps : Got → Type 0
  Keeps sleeps = Unit
  Keeps aborts = Unit
  Keeps (got m1 t) = (m1.rpcs r).p ≡ (m.rpcs r).p

  abbrev Grows : Option Mux → Type 0
  Grows none = Unit
  Grows (some m1) = (m1.rpcs r).p ≡ (m.rpcs r).p

  claim-Keeps : (m1 : Mux) (o : Option ℕ) → (m1.rpcs r).p ≡ (m.rpcs r).p → Keeps (claim m1 r o)
  unfolding claim take_slot with_rpc
  claim-Keeps m1 none h = tt
  claim-Keeps m1 (some i) h = ap (λ (x : Rpc). x.p) (if_true _ (==_refl r)) ∙ h

  gettag_in-Keeps : (o : Option Mux) → Grows o → Keeps (gettag_in r o)
  unfolding gettag_in
  gettag_in-Keeps none h = tt
  gettag_in-Keeps (some m1) h = claim-Keeps m1 (choose m1) h

  pub gettag-Keeps : Keeps (gettag m r)
  unfolding gettag make_room grown
  gettag-Keeps = gettag_in-Keeps (make_room m) (
      if_elim Grows (m.nwait == m.mwait)
        (if ltb m.mwait (m.maxtag - m.mintag) then some (grown m) else none) (some m)
        (λ _.
          if_elim Grows (ltb m.mwait (m.maxtag - m.mintag)) (some (grown m)) none (λ _. refl)
            (λ _. tt))
        (λ _. refl))

-- A caller that has neither a slot nor a place in the ring gets both, or waits for a tag.
module _ (m : Mux) (s : IsSound m) (r : ℕ) (no_slot : (j : ℕ) → slot m j ≢ some r)
    (out : is_queued r m.sleep ≡ false) where
  abbrev pub Starts : Got → Type 0
  Starts sleeps = Unit
  Starts aborts = ⊥
  Starts (got m1 t) = Calls m (enqueue m1 r) r × (((enqueue m1 r).rpcs r).p ≡ none)

  pub gettag-Starts : Starts (gettag (initrpc m r) r)
  unfolding initrpc with_rpc enqueue is_queued
  gettag-Starts = elim (gettag-Fresh (initrpc m r) r (initrpc-IsMux m r s.tags) no_slot) [
    | inl (full, e) ↦ subst Starts (sym e) tt
    | inr (i, m1, e, fresh) ↦
        let keeps : (m1.rpcs r).p ≡ ((initrpc m r).rpcs r).p =
          subst (Keeps (initrpc m r) r) e (gettag-Keeps (initrpc m r) r) in
        let no_p : (m1.rpcs r).p ≡ none = keeps ∙ ap (λ (x : Rpc). x.p) (if_true _ (==_refl r)) in
        subst Starts (sym e) (
          record {
            run = after here (starts r (i + m.mintag) m1 no_slot out e);
            holds = (i, fresh.slots i ∙ if_true _ (==_refl i));
            state = inl (no_p, if_true _ (==_refl r));
          },
          no_p,
        )
  ]
