-- ===== src/Rpc/Delivery.antt =====
-- libmixp/rpc.c: whom an answer goes to, in every state that the calls can lead to.
use libmixp.Base.{
  ℕ, ◌+◌, ◌-◌, ◌*◌, ◌%◌, ◌^◌, ◌≤◌, ◌≡◌, ◌≢◌, refl, ap, ◌∙◌, true, false, Option, none, some, arith,
  if◌then◌else◌, if_elim, ◌==◌, ==→eq, ==_refl, Bool-cases, inl, inr, ltb, lt→ltb, ltb_le, ltb→le,
}
use libmixp.Fcall.{Fcall}
use libmixp.Rpc.{
  Rpc, Mux, slot, puttag, dequeue, is_queued, unlink, hand_over, dispatchandqlock, electmuxer,
  with_rpc,
}
use libmixp.Rpc.Returned.{Freed, puttag-Freed, some_inside, tag-slot}
use libmixp.Rpc.Queue.{is_queued-unlink}
use libmixp.Rpc.Runs.{
  Step, starts, receives, muxes, elects, withdraws, ends, Run, here, after, idle, IsSound,
  idle-IsSound, started, left, received,
}

withdrawn : (m : Mux) (r : ℕ) (m' : Mux) → IsSound m → dequeue m r ≡ some m' → IsSound m'
unfolding dequeue
withdrawn m r m' s e =
    if_elim (λ o. o ≡ some m' → IsSound m') (is_queued r m.sleep)
      (some (record m { sleep = unlink r m.sleep })) none
      (λ _ k.
        let same : record m { sleep = unlink r m.sleep } ≡ m' = cc (k) in
        rw same at (left m r m.rpcs s (λ q. refl)))
      (λ _ k. absurd (cc (k))) e

never_both :
    (m : Mux) (r q i : ℕ)
    → slot m i ≡ some r
    → slot m i ≡ some q
    → is_queued q m.sleep ≡ true
    → is_queued r m.sleep ≡ false
    → ⊥
never_both m r q i held has waiting out =
    let e : r ≡ q = cc (held, has) in cc (ap (λ (k : ℕ). is_queued k m.sleep) e, waiting, out)

-- Nobody who still waits loses the slot.
freed_sound :
    (m : Mux) (r i : ℕ) (m' : Mux)
    → IsSound m
    → slot m i ≡ some r
    → is_queued r m.sleep ≡ false
    → (m.rpcs r).tag - m.mintag ≡ i
    → Freed m m' r
    → IsSound m'
freed_sound m r i m' s held out at f = record {
  tags = f.fine;
  distinct = rw f.same_sleep s.distinct;
  held = λ q e.
      let waiting : is_queued q m.sleep ≡ true = rw f.same_sleep at e in
      let (j, has) = s.held q waiting in
      (
        j,
        f.slots j
            ∙ rw at (
                if_elim (λ o. o ≡ some q) (i == j) none (slot m j)
                  (λ same. absurd (
                    never_both m r q i held (ap (λ (k : ℕ). slot m k) (==→eq i j same) ∙ has)
                      waiting out))
                  (λ _. has)),
      );
}

ended :
    (m : Mux) (r i : ℕ) (m' : Mux)
    → IsSound m
    → slot m i ≡ some r
    → is_queued r m.sleep ≡ false
    → puttag m r ≡ some m'
    → IsSound m'
ended m r i m' s held out e =
    let (m1, e1, freed) = puttag-Freed m i r s.tags held in
    let same : m1 ≡ m' = cc (e, e1) in
    rw same at (freed_sound m r i m1 s held out (tag-slot m i r s.tags held) freed)

muxer-IsSound : (m : Mux) (o : Option ℕ) → IsSound m → IsSound (record m { muxer = o })
muxer-IsSound m o s = record {
  tags = record {
    width = s.tags.width;
    counted = s.tags.counted;
    hint = s.tags.hint;
    bounded = s.tags.bounded;
    tagged = s.tags.tagged;
  };
  distinct = s.distinct;
  held = s.held;
}

Step-IsSound : (m m' : Mux) → IsSound m → Step m m' → IsSound m'
unfolding electmuxer
Step-IsSound m m' s (starts r t m1 new out e) = started m r t m1 s new out e
Step-IsSound m m' s (receives f) = received m f s
Step-IsSound m m' s (muxes r) = muxer-IsSound m (some r) s
Step-IsSound m m' s elects = muxer-IsSound m _ s
Step-IsSound m m' s (withdraws r m1 e) = withdrawn m r m1 s e
Step-IsSound m m' s (ends r i m1 held out e) = ended m r i m1 s held out e

pub Run-IsSound : (m m' : Mux) → IsSound m → Run m m' → IsSound m'
Run-IsSound m m' s here = s
Run-IsSound m m' s (after {m1 = m1} run step) = Step-IsSound m1 m' (Run-IsSound m m1 s run) step

handed : Mux → Fcall → ℕ → Mux
handed m f r = record m {
  rpcs = with_rpc m.rpcs r (record (m.rpcs r) { p = some f });
  sleep = unlink r m.sleep;
}

delivered :
    (m : Mux) (f : Fcall) (r : ℕ)
    → IsSound m
    → is_queued r m.sleep ≡ true
    → f.tag ≡ (m.rpcs r).tag
    → dispatchandqlock m f ≡ handed m f r
unfolding dispatchandqlock hand_over handed
delivered m f r s waiting e =
    let (i, has) = s.held r waiting in
    let tag : f.tag ≡ i + m.mintag = e ∙ s.tags.tagged i r has in
    let at : f.tag - m.mintag ≡ i = omega (arith, tag) in
    rw (
      at,
      ltb_le f.tag m.mintag (omega (arith, tag)),
      lt→ltb i m.mwait (omega (arith, some_inside m.wait i r has, s.tags.width)),
      has,
      waiting,
    )

unwanted :
    (m : Mux) (f : Fcall) (o : Option ℕ)
    → ((r : ℕ) → o ≡ some r → is_queued r m.sleep ≡ false)
    → hand_over m f o ≡ m
unfolding hand_over
unwanted m f none out = refl
unwanted m f (some r) out = rw (out r refl)

dropped :
    (m : Mux) (f : Fcall)
    → IsSound m
    → ((r : ℕ) → is_queued r m.sleep ≡ true → f.tag ≢ (m.rpcs r).tag)
    → dispatchandqlock m f ≡ m
unfolding dispatchandqlock
dropped m f s nobody =
    let i = f.tag - m.mintag in
    if_elim (λ x. x ≡ m) (ltb f.tag m.mintag) m
      (if ltb i m.mwait then hand_over m f (slot m i) else m) (λ _. refl)
      (λ above.
        if_elim (λ x. x ≡ m) (ltb i m.mwait) (hand_over m f (slot m i)) m
          (λ _. unwanted m f (slot m i) (λ r has. elim (Bool-cases (is_queued r m.sleep)) [
            | inr out ↦ out
            | inl waiting ↦ absurd (
                nobody r waiting
                  (omega (arith, s.tags.tagged i r has, ltb→le f.tag m.mintag above)))
          ]))
          (λ _. refl))

-- In every state that the calls of a client can lead to, an answer whose tag a waiting caller has is
-- handed to this caller, which leaves the ring; every other caller keeps its fields and its place. An
-- answer with any other tag changes nothing.
pub dispatchandqlock-delivers :
    (mintag maxtag : ℕ) (rpcs : ℕ → Rpc) (m : Mux) (f : Fcall)
    → Run (idle mintag maxtag rpcs) m
    → ((r : ℕ)
        → is_queued r m.sleep ≡ true
        → f.tag ≡ (m.rpcs r).tag
        → (((dispatchandqlock m f).rpcs r).p ≡ some f)
          × (is_queued r (dispatchandqlock m f).sleep ≡ false)
          × ((q : ℕ)
              → q ≢ r
              → ((dispatchandqlock m f).rpcs q ≡ m.rpcs q)
                × (is_queued q (dispatchandqlock m f).sleep ≡ is_queued q m.sleep)))
      × (((r : ℕ) → is_queued r m.sleep ≡ true → f.tag ≢ (m.rpcs r).tag) → dispatchandqlock m f ≡ m)
unfolding handed with_rpc
dispatchandqlock-delivers mintag maxtag rpcs m f run =
    let s = Run-IsSound _ m (idle-IsSound mintag maxtag rpcs) run in
    (
      λ r waiting e. rw (delivered m f r s waiting e) (
        rw (==_refl r),
        is_queued-unlink r r m.sleep s.distinct ∙ rw (==_refl r),
        λ q ne. (
          if_elim (λ x. x ≡ m.rpcs q) (q == r) (record (m.rpcs r) { p = some f }) (m.rpcs q)
              (λ same. absurd (ne (==→eq q r same))) (λ _. refl),
          is_queued-unlink q r m.sleep s.distinct
              ∙ if_elim (λ x. x ≡ is_queued q m.sleep) (q == r) false (is_queued q m.sleep)
                  (λ same. absurd (ne (==→eq q r same))) (λ _. refl),
        ),
      ),
      dropped m f s,
    )

-- In every state that the calls of a client can lead to, with tags that fit into 16 bits, two callers
-- that have a tag have different ones, also as they are sent.
pub tag-distinct :
    (mintag maxtag : ℕ) (rpcs : ℕ → Rpc) (m : Mux) (i j r q : ℕ)
    → Run (idle mintag maxtag rpcs) m
    → m.mintag + 2 * (m.maxtag - m.mintag - 1) + 1 ≤ 2 ^ 16
    → slot m i ≡ some r
    → slot m j ≡ some q
    → r ≢ q
    → (m.rpcs r).tag % 2 ^ 16 ≢ (m.rpcs q).tag % 2 ^ 16
tag-distinct mintag maxtag rpcs m i j r q run narrow ir jq ne e =
    let s = Run-IsSound _ m (idle-IsSound mintag maxtag rpcs) run in
    let i_in = some_inside m.wait i r ir in
    let j_in = some_inside m.wait j q jq in
    let same : i ≡ j =
      omega (arith, s.tags.tagged i r ir, s.tags.tagged j q jq, s.tags.bounded, s.tags.width) in
    ne (cc (ir, jq, ap (λ (k : ℕ). slot m k) same))
