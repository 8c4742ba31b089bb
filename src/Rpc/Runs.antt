-- ===== src/Rpc/Runs.antt =====
-- The runs of libmixp/rpc.c: every order in which its locked parts can follow each other.
use libmixp.Base.{
  ℕ, ◌+◌, ◌-◌, ◌≡◌, ◌≢◌, refl, sym, ap, ◌∙◌, true, false, Option, none, some, [], arith,
  if◌then◌else◌, if_elim, ◌==◌, ==→eq, ==_refl, Bool-cases, inl, inr, ltb,
}
use libmixp.Fcall.{Fcall}
use libmixp.Rpc.{
  Rpc, Mux, slot, got, gettag, puttag, enqueue, dequeue, is_queued, unlink, hand_over,
  dispatchandqlock, electmuxer, with_rpc, initrpc,
}
use libmixp.Rpc.Tags.{Fresh, gettag-Fresh}
use libmixp.Rpc.Growth.{IsMux}
use libmixp.Rpc.Queue.{IsDistinct, is_queued-unlink, unlink-IsDistinct}

-- What the threads of a client do with the lock held. An rpc is new when `sendrpc` starts it, and
-- `puttag` comes when it is out of the ring.
pub data Step (m : Mux) : Mux → Type 0 where
  starts :
      (r t : ℕ) (m' : Mux)
      → ((j : ℕ) → slot m j ≢ some r)
      → is_queued r m.sleep ≡ false
      → gettag (initrpc m r) r ≡ got m' t
      → Step m (enqueue m' r)
  receives : (f : Fcall) → Step m (dispatchandqlock m f)
  muxes : (r : ℕ) → Step m (record m { muxer = some r })
  elects : Step m (electmuxer m)
  withdraws : (r : ℕ) (m' : Mux) → dequeue m r ≡ some m' → Step m m'
  ends :
      (r i : ℕ) (m' : Mux)
      → slot m i ≡ some r
      → is_queued r m.sleep ≡ false
      → puttag m r ≡ some m'
      → Step m m'

pub data Run (m : Mux) : Mux → Type 0 where
  here : Run m m
  after : {m1 m2 : Mux} → Run m m1 → Step m1 m2 → Run m m2

-- A client with no calls yet.
abbrev pub idle : ℕ → ℕ → (ℕ → Rpc) → Mux
idle mintag maxtag rpcs = record {
  mintag = mintag;
  maxtag = maxtag;
  nwait = 0;
  mwait = 0;
  freetag = 0;
  wait = [];
  sleep = [];
  muxer = none;
  rpcs = rpcs;
}

-- Everybody in the ring stands there once and has a slot.
pub record IsSound (m : Mux) : Type 0 where
  pub tags : IsMux m
  pub distinct : IsDistinct m.sleep
  pub held : (r : ℕ) → is_queued r m.sleep ≡ true → (i : ℕ) × (slot m i ≡ some r)

pub idle-IsSound : (mintag maxtag : ℕ) (rpcs : ℕ → Rpc) → IsSound (idle mintag maxtag rpcs)
unfolding is_queued
idle-IsSound mintag maxtag rpcs = record {
  tags = record {
    width = refl;
    counted = refl;
    hint = λ h. h;
    bounded = omega arith;
    tagged = λ i r e. cc (e);
  };
  distinct = tt;
  held = λ r e. cc (e);
}

pub initrpc-IsMux : (m : Mux) (r : ℕ) → IsMux m → IsMux (initrpc m r)
unfolding initrpc with_rpc
initrpc-IsMux m r c = record {
  width = c.width;
  counted = c.counted;
  hint = c.hint;
  bounded = c.bounded;
  tagged = λ i q e.
      if_elim (λ (x : Rpc). x.tag ≡ i + m.mintag) (q == r) (record (m.rpcs r) { p = none })
        (m.rpcs q) (λ same. ap (λ (k : ℕ). (m.rpcs k).tag) (sym (==→eq _ _ same)) ∙ c.tagged i q e)
        (λ _. c.tagged i q e);
}

got_inj : (m m' : Mux) (t t' : ℕ) → got m t ≡ got m' t' → m ≡ m'
got_inj m m' t t' e = cc (e)

-- The caller that `gettag` served joins the ring.
joined :
    (m m' : Mux) (r i : ℕ)
    → IsSound m
    → is_queued r m.sleep ≡ false
    → Fresh (initrpc m r) m' r i
    → IsSound (enqueue m' r)
unfolding enqueue initrpc is_queued
joined m m' r i s new f =
    let still : (q j : ℕ) → slot m j ≡ some q → slot m' j ≡ some q = λ q j e.
      if_elim (λ o. slot m' j ≡ o → slot m' j ≡ some q) (i == j) (some r) (slot m j)
        (λ same _. cc (e, f.was_free, ap (λ (k : ℕ). slot m k) (==→eq i j same))) (λ _ k. k ∙ e)
        (f.slots j) in
    record {
      tags = record {
        width = f.fine.width;
        counted = f.fine.counted;
        hint = f.fine.hint;
        bounded = f.fine.bounded;
        tagged = f.fine.tagged;
      };
      distinct = (rw f.same_sleep new, rw f.same_sleep s.distinct);
      held = λ q e. elim (Bool-cases (r == q)) [
        | inl same ↦ (i, rw (f.slots i, ==_refl i) (ap some (==→eq r q same)))
        | inr other ↦ let (j, has) = s.held q (rw (other, f.same_sleep) at e) in (j, still q j has)
      ];
    }

pub started :
    (m : Mux) (r t : ℕ) (m' : Mux)
    → IsSound m
    → ((j : ℕ) → slot m j ≢ some r)
    → is_queued r m.sleep ≡ false
    → gettag (initrpc m r) r ≡ got m' t
    → IsSound (enqueue m' r)
unfolding initrpc
started m r t m' s new out e = elim (gettag-Fresh (initrpc m r) r (initrpc-IsMux m r s.tags) new) [
  | inl (full, sleeping) ↦ cc (e, sleeping)
  | inr (i, m1, e1, fresh) ↦
      let same : m1 ≡ m' = got_inj m1 m' (i + m.mintag) t (sym e1 ∙ e) in
      joined m m' r i s out (rw same at fresh)
]

-- A caller that leaves the ring keeps its slot.
pub left :
    (m : Mux) (r : ℕ) (rpcs : ℕ → Rpc)
    → IsSound m
    → ((q : ℕ) → (rpcs q).tag ≡ (m.rpcs q).tag)
    → IsSound (record m { rpcs = rpcs; sleep = unlink r m.sleep })
left m r rpcs s same = record {
  tags = record {
    width = s.tags.width;
    counted = s.tags.counted;
    hint = s.tags.hint;
    bounded = s.tags.bounded;
    tagged = λ i q e. same q ∙ s.tags.tagged i q e;
  };
  distinct = unlink-IsDistinct r m.sleep s.distinct;
  held = λ q e.
      if_elim (λ b. b ≡ true → (i : ℕ) × (slot m i ≡ some q)) (q == r) false (is_queued q m.sleep)
        (λ _ n. cc (n)) (λ _. s.held q) (rw (is_queued-unlink q r m.sleep s.distinct) at e);
}

tag-with_rpc :
    (m : Mux) (r : ℕ) (f : Fcall) (q : ℕ)
    → (with_rpc m.rpcs r (record (m.rpcs r) { p = some f }) q).tag ≡ (m.rpcs q).tag
unfolding with_rpc
tag-with_rpc m r f q =
    if_elim (λ (x : Rpc). x.tag ≡ (m.rpcs q).tag) (q == r) (record (m.rpcs r) { p = some f })
      (m.rpcs q) (λ same. ap (λ (k : ℕ). (m.rpcs k).tag) (sym (==→eq _ _ same))) (λ _. refl)

answered : (m : Mux) (f : Fcall) (o : Option ℕ) → IsSound m → IsSound (hand_over m f o)
unfolding hand_over
answered m f none s = s
answered m f (some r) s =
    if_elim IsSound (is_queued r m.sleep) _ m
      (λ _. left m r (with_rpc m.rpcs r (record (m.rpcs r) { p = some f })) s (tag-with_rpc m r f))
      (λ _. s)

pub received : (m : Mux) (f : Fcall) → IsSound m → IsSound (dispatchandqlock m f)
unfolding dispatchandqlock
received m f s =
    let handed = hand_over m f (slot m (f.tag - m.mintag)) in
    if_elim IsSound (ltb f.tag m.mintag) m (if ltb (f.tag - m.mintag) m.mwait then handed else m)
      (λ _. s)
      (λ _.
        if_elim IsSound (ltb (f.tag - m.mintag) m.mwait) handed m
          (λ _. answered m f (slot m (f.tag - m.mintag)) s) (λ _. s))
