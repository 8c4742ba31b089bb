-- ===== src/Rpc/Tags.antt =====
-- `gettag` of libmixp/rpc.c.
use libmixp.Base.{
  ℕ, ◌+◌, ◌-◌, ◌<◌, ◌≡◌, ◌≢◌, ◌⊎◌, refl, ap, sym, ◌∙◌, false, none, some, length, length-set,
  get_or-set, arith, if◌then◌else◌, if_elim, inl, inr, Option-cases, Bool-cases, ltb, ltb→le,
  ltb→lt, ◌==◌, ==→eq, ==_refl,
}
use libmixp.Rpc.{
  Rpc, Mux, with_rpc, slot, find_free, or_else, choose, got, sleeps, take_slot, claim, gettag_in,
  gettag,
}
use libmixp.Rpc.Slots.{taken-set-some, taken-full, find_free-some, find_free-none}
use libmixp.Rpc.Growth.{IsMux, Roomy, Full, make_room-Roomy}

choose-free :
    (m : Mux)
    → IsMux m
    → m.nwait < m.mwait
    → (i : ℕ) × (choose m ≡ some i) × (slot m i ≡ none) × (i < m.mwait)
unfolding choose or_else
choose-free m c room =
    let n = m.mwait - m.freetag in
    let inside = c.hint (omega arith) in
    elim (Option-cases (find_free n m.freetag m.wait)) [
      | inr (i, e) ↦
          let found = find_free-some n m.freetag i m.wait e in
          (i, rw e, found.0, omega (arith, found.2, inside))
      | inl e ↦ elim (Option-cases (find_free m.freetag 0 m.wait)) [
        | inr (i, e2) ↦
            let found = find_free-some m.freetag 0 i m.wait e2 in
            (i, rw (e, e2), found.0, omega (arith, found.2, inside))
        | inl e2 ↦
            let full = taken-full m.wait (λ i h. elim (Bool-cases (ltb i m.freetag)) [
              | inr later ↦
                  find_free-none n m.freetag m.wait e i (ltb→le _ _ later)
                    (omega (arith, c.width, inside))
              | inl sooner ↦
                  find_free-none m.freetag 0 m.wait e2 i (omega arith)
                    (omega (arith, ltb→lt _ _ sooner))
            ]) in
            absurd (omega (arith, full, c.width, c.counted, room))
      ]
    ]

-- What a caller gets from `gettag`: a tag that nobody has, in a table that is otherwise the same.
pub record Fresh (m m' : Mux) (r i : ℕ) : Type 0 where
  pub was_free : slot m i ≡ none
  pub slots : (j : ℕ) → slot m' j ≡ (if i == j then some r else slot m j)
  pub tag : (m'.rpcs r).tag ≡ i + m.mintag
  pub others : (q : ℕ) → q ≢ r → m'.rpcs q ≡ m.rpcs q
  pub same_min : m'.mintag ≡ m.mintag
  pub same_sleep : m'.sleep ≡ m.sleep
  pub fine : IsMux m'

refute : (q r : ℕ) → r ≡ q → (q == r) ≡ false → ⊥
refute q r e other = ground arith

take_slot-IsMux :
    (m : Mux) (r i : ℕ)
    → IsMux m
    → slot m i ≡ none
    → i < m.mwait
    → ((j : ℕ) → slot m j ≢ some r)
    → IsMux (take_slot m r i)
unfolding take_slot with_rpc
take_slot-IsMux m r i c free inside holds_none =
    let h : i < length m.wait = omega (arith, c.width, inside) in
    record {
      width = length-set m.wait i (some r) ∙ c.width;
      counted = omega (arith, taken-set-some m.wait i r h free, c.counted);
      hint = c.hint;
      bounded = c.bounded;
      tagged = λ j q e. elim (Bool-cases (i == j)) [
        | inl same ↦
            let hit : r ≡ q = cc (rw (get_or-set m.wait i j (some r) none h, same) at e) in
            if_elim (λ (x : Rpc). x.tag ≡ j + m.mintag) (q == r)
              (record (m.rpcs r) { tag = i + m.mintag }) (m.rpcs q)
              (λ _. ap (λ (k : ℕ). k + m.mintag) (==→eq _ _ same))
              (λ other. absurd (refute q r hit other))
        | inr apart ↦
            let held : slot m j ≡ some q = rw (get_or-set m.wait i j (some r) none h, apart) at e in
            if_elim (λ (x : Rpc). x.tag ≡ j + m.mintag) (q == r)
              (record (m.rpcs r) { tag = i + m.mintag }) (m.rpcs q)
              (λ hit. absurd (holds_none j (held ∙ ap some (==→eq _ _ hit))))
              (λ _. c.tagged j q held)
      ];
    }

take_slot-Fresh :
    (m : Mux) (r i : ℕ)
    → IsMux m
    → slot m i ≡ none
    → i < m.mwait
    → ((j : ℕ) → slot m j ≢ some r)
    → Fresh m (take_slot m r i) r i
unfolding take_slot with_rpc
take_slot-Fresh m r i c free inside holds_none = record {
  was_free = free;
  slots = λ j. get_or-set m.wait i j (some r) none (omega (arith, c.width, inside));
  tag = rw (==_refl r);
  others = λ q ne.
      if_elim (λ (x : Rpc). x ≡ m.rpcs q) (q == r) (record (m.rpcs r) { tag = i + m.mintag })
        (m.rpcs q) (λ hit. absurd (ne (==→eq _ _ hit))) (λ _. refl);
  same_min = refl;
  same_sleep = refl;
  fine = take_slot-IsMux m r i c free inside holds_none;
}

Roomy-Fresh : (m m1 m2 : Mux) (r i : ℕ) → Roomy m m1 → Fresh m1 m2 r i → Fresh m m2 r i
Roomy-Fresh m m1 m2 r i roomy f = record {
  was_free = sym (roomy.same_slots i) ∙ f.was_free;
  slots = λ j. rw (sym (roomy.same_slots j)) (f.slots j);
  tag = f.tag ∙ ap (λ (k : ℕ). i + k) roomy.same_min;
  others = λ q ne. f.others q ne ∙ ap (λ (rpcs : ℕ → Rpc). rpcs q) roomy.same_rpcs;
  same_min = f.same_min ∙ roomy.same_min;
  same_sleep = f.same_sleep ∙ roomy.same_sleep;
  fine = f.fine;
}

-- On a well-formed table, `gettag` for an rpc without a tag sleeps exactly if the table is full and at
-- its limit. Otherwise it gives a tag that no rpc has, changes no other slot and no other rpc, and
-- leaves a well-formed table. It never falls out of its loop into `abort`.
pub gettag-Fresh :
    (m : Mux) (r : ℕ)
    → IsMux m
    → ((j : ℕ) → slot m j ≢ some r)
    → (Full m × (gettag m r ≡ sleeps))
      ⊎ ((i : ℕ) × (m' : Mux) × (gettag m r ≡ got m' (i + m.mintag)) × Fresh m m' r i)
unfolding gettag gettag_in claim
gettag-Fresh m r c holds_none = elim (make_room-Roomy m c) [
  | inl (full, e) ↦ inl (full, rw e)
  | inr (m1, e, roomy) ↦
      let (i, chosen, free, inside) = choose-free m1 roomy.fine roomy.room in
      let fresh =
        take_slot-Fresh m1 r i roomy.fine free inside
          (λ j held. holds_none j (sym (roomy.same_slots j) ∙ held)) in
      inr (
        i,
        take_slot m1 r i,
        rw (e, chosen) (ap (λ (k : ℕ). got (take_slot m1 r i) (i + k)) roomy.same_min),
        Roomy-Fresh m m1 _ r i roomy fresh,
      )
]
