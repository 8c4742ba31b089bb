-- ===== src/Rpc/Growth.antt =====
-- The table of tags in libmixp/rpc.c, and how `gettag` makes room in it.
use libmixp.Base.{
  ℕ, zero, suc, ◌+◌, ◌-◌, ◌*◌, ◌≤◌, ◌<◌, ◌≡◌, ◌⊎◌, refl, sym, ◌∙◌, false, Option, none, some, List,
  [], ◌∷◌, ◌++◌, length, length-append, length-replicate, get_or, get_or-replicate, replicate,
  arith, inl, inr, Bool-cases, ltb, ltb→le, ltb→lt, ◌==◌, ==→eq,
}
use libmixp.Rpc.{Mux, slot, doubled, grown, make_room}
use libmixp.Rpc.Slots.{taken, taken-append, taken-replicate}

-- `nwait` counts the slots that are taken, `freetag` is one of the slots, and every slot's rpc has the
-- slot's tag. The table never grows past twice the number of tags.
pub record IsMux (m : Mux) : Type 0 where
  pub width : length m.wait ≡ m.mwait
  pub counted : m.nwait ≡ taken m.wait
  pub hint : 0 < m.mwait → m.freetag < m.mwait
  pub bounded : m.mwait ≤ 2 * (m.maxtag - m.mintag - 1) + 1
  pub tagged : (i r : ℕ) → slot m i ≡ some r → (m.rpcs r).tag ≡ i + m.mintag

get_or-append_none :
    (wait : List (Option ℕ)) (n i : ℕ)
    → get_or (wait ++ replicate n none) i none ≡ get_or wait i none
get_or-append_none [] n i = get_or-replicate n i none
get_or-append_none (o ∷ wait) n zero = refl
get_or-append_none (o ∷ wait) n (suc i) = get_or-append_none wait n i

doubled-bounds : (n : ℕ) → (n < doubled n) × (doubled n ≤ 2 * n + 1) × (0 < n → doubled n ≤ 2 * n)
unfolding doubled
doubled-bounds zero = (omega arith, omega arith, λ h. omega arith)
doubled-bounds (suc n) = (omega arith, omega arith, λ h. omega arith)

zero_or_positive : (n : ℕ) → (n ≡ 0) ⊎ (0 < n)
zero_or_positive zero = inl refl
zero_or_positive (suc n) = inr (omega arith)

doubled-bounded : (n k : ℕ) → n < k → doubled n ≤ 2 * (k - 1) + 1
doubled-bounded n k h = elim (zero_or_positive n) [
  | inl e ↦ omega (arith, doubled-bounds n)
  | inr pos ↦ omega (arith, (doubled-bounds n).2 pos)
]

taken-grown : (wait : List (Option ℕ)) (n : ℕ) → taken (wait ++ replicate n none) ≡ taken wait
taken-grown wait n = omega (arith, taken-append wait (replicate n none), taken-replicate n)

grown-IsMux : (m : Mux) → IsMux m → m.mwait < m.maxtag - m.mintag → IsMux (grown m)
unfolding grown
grown-IsMux m c small =
    let more = doubled m.mwait - m.mwait in
    let larger = (doubled-bounds m.mwait).0 in
    record {
      width = omega (
        arith,
        length-append m.wait (replicate more none),
        length-replicate {A = Option ℕ} more none,
        c.width,
        larger,
      );
      counted = c.counted ∙ sym (taken-grown m.wait more);
      hint = λ _. larger;
      bounded = doubled-bounded m.mwait (m.maxtag - m.mintag) small;
      tagged = λ i r e. c.tagged i r (rw (get_or-append_none m.wait more i) at e);
    }

-- What `make_room` leaves when it does not sleep: a table with a free slot, and the same callers.
pub record Roomy (m m' : Mux) : Type 0 where
  pub same_slots : (i : ℕ) → slot m' i ≡ slot m i
  pub same_min : m'.mintag ≡ m.mintag
  pub same_rpcs : m'.rpcs ≡ m.rpcs
  pub same_sleep : m'.sleep ≡ m.sleep
  pub room : m'.nwait < m'.mwait
  pub fine : IsMux m'

taken-le : (wait : List (Option ℕ)) → taken wait ≤ length wait
taken-le [] = omega arith
taken-le (none ∷ wait) = omega (arith, taken-le wait)
taken-le (some r ∷ wait) = omega (arith, taken-le wait)

pub below : (a b : ℕ) → (a == b) ≡ false → a ≤ b → a < b
below a b other h = ground arith

-- The table is full and may not grow.
pub record Full (m : Mux) : Type 0 where
  pub all_taken : m.nwait ≡ m.mwait
  pub at_limit : m.maxtag - m.mintag ≤ m.mwait

pub make_room-Roomy :
    (m : Mux)
    → IsMux m
    → (Full m × (make_room m ≡ none)) ⊎ ((m' : Mux) × (make_room m ≡ some m') × Roomy m m')
unfolding make_room grown
make_room-Roomy m c = elim (Bool-cases (m.nwait == m.mwait)) [
  | inl full ↦ elim (Bool-cases (ltb m.mwait (m.maxtag - m.mintag))) [
    | inl small ↦ inr (
      grown m,
      rw (full, small),
      record {
        same_slots = get_or-append_none m.wait (doubled m.mwait - m.mwait);
        same_min = refl;
        same_rpcs = refl;
        same_sleep = refl;
        room = omega (arith, ==→eq _ _ full, (doubled-bounds m.mwait).0);
        fine = grown-IsMux m c (ltb→lt _ _ small);
      },
    )
    | inr large ↦
        inl (record { all_taken = ==→eq _ _ full; at_limit = ltb→le _ _ large }, rw (full, large))
  ]
  | inr left ↦ inr (
    m,
    rw left,
    record {
      same_slots = λ i. refl;
      same_min = refl;
      same_rpcs = refl;
      same_sleep = refl;
      room = below m.nwait m.mwait left (omega (arith, c.counted, c.width, taken-le m.wait));
      fine = c;
    },
  )
]
