-- ===== src/Rpc/Returned.antt =====
-- `puttag` of libmixp/rpc.c.
use libmixp.Base.{
  ℕ, ◌+◌, ◌-◌, ◌<◌, ◌≡◌, refl, ◌∙◌, Option, none, some, List, [], ◌∷◌, length, length-set, get_or,
  get_or-set, set, arith, if◌then◌else◌, if_elim, ◌==◌, ==_refl, zero, suc,
}
use libmixp.Rpc.{Mux, slot, is_rpc, puttag}
use libmixp.Rpc.Slots.{taken-set-none}
use libmixp.Rpc.Growth.{IsMux}

-- What `puttag` leaves.
pub record Freed (m m' : Mux) (r : ℕ) : Type 0 where
  pub slots : (j : ℕ) → slot m' j ≡ (if (m.rpcs r).tag - m.mintag == j then none else slot m j)
  pub same_rpcs : m'.rpcs ≡ m.rpcs
  pub same_min : m'.mintag ≡ m.mintag
  pub same_sleep : m'.sleep ≡ m.sleep
  pub fine : IsMux m'

pub some_inside : (wait : List (Option ℕ)) (i r : ℕ) → get_or wait i none ≡ some r → i < length wait
some_inside [] i r e = cc
some_inside (o ∷ wait) zero r e = omega arith
some_inside (o ∷ wait) (suc i) r e = omega (arith, some_inside wait i r e)

set-none-IsMux :
    (m : Mux) (i r : ℕ)
    → IsMux m
    → slot m i ≡ some r
    → IsMux (record m { wait = set m.wait i none; nwait = m.nwait - 1; freetag = i })
set-none-IsMux m i r c held =
    let h = some_inside m.wait i r held in
    record {
      width = length-set m.wait i none ∙ c.width;
      counted = omega (arith, taken-set-none m.wait i r held, c.counted);
      hint = λ _. omega (arith, h, c.width);
      bounded = c.bounded;
      tagged = λ j q e.
          if_elim (λ o. o ≡ some q → (m.rpcs q).tag ≡ j + m.mintag) (i == j) none (slot m j)
            (λ _ n. cc (n)) (λ _. c.tagged j q) (rw (get_or-set m.wait i j none none h) at e);
    }

pub tag-slot : (m : Mux) (i r : ℕ) → IsMux m → slot m i ≡ some r → (m.rpcs r).tag - m.mintag ≡ i
tag-slot m i r c held = omega (arith, c.tagged i r held)

-- On a well-formed table, the assertion of `puttag` holds for an rpc that has a slot; its slot, and no
-- other, is free afterwards, and the table is well-formed.
pub puttag-Freed :
    (m : Mux) (i r : ℕ)
    → IsMux m
    → slot m i ≡ some r
    → (m' : Mux) × (puttag m r ≡ some m') × Freed m m' r
unfolding puttag is_rpc
puttag-Freed m i r c held =
    let at = tag-slot m i r c held in
    let there : slot m ((m.rpcs r).tag - m.mintag) ≡ some r = rw at held in
    let k = (m.rpcs r).tag - m.mintag in
    (
      record m { wait = set m.wait k none; nwait = m.nwait - 1; freetag = k },
      rw (there, ==_refl r),
      record {
        slots = λ j. get_or-set m.wait k j none none (some_inside m.wait k r there);
        same_rpcs = refl;
        same_min = refl;
        same_sleep = refl;
        fine = set-none-IsMux m k r c there;
      },
    )
