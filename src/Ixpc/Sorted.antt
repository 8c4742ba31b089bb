-- ===== src/Ixpc/Sorted.antt =====
-- `qsort` with `comp_stat` of cmd/ixpc.c.
use libmixp.Base.{
  ◌≡◌, refl, true, false, List, [], ◌∷◌, Bytes, arith, Bool-cases, inl, inr, if_true, if_false, sym,
}
use mathlib.Core.List.{Perm}
use mathlib.Core.List.Perm
use mathlib.Core.Path.{subst}
use libmixp.Compound.{text_of}
use libmixp.Stat.{Stat}
use libmixp.Ixpc.{strcmp_le, comp_stat}
use libmixp.Ixpc.Entries.{place, qsort}

-- Each entry is not behind the next.
abbrev pub IsSorted : List Stat → Type 0
IsSorted [] = Unit
IsSorted (st ∷ []) = Unit
IsSorted (st ∷ s ∷ stats) = (comp_stat st s ≡ true) × IsSorted (s ∷ stats)

strcmp_le_total : (s t : Bytes) → strcmp_le s t ≡ false → strcmp_le t s ≡ true
unfolding strcmp_le
strcmp_le_total [] t h = cc h
strcmp_le_total (c ∷ s) [] h = refl
strcmp_le_total (c ∷ s) (d ∷ t) h = ground (arith, strcmp_le_total s t)

comp_stat_total : (s t : Stat) → comp_stat s t ≡ false → comp_stat t s ≡ true
unfolding comp_stat
comp_stat_total s t h = strcmp_le_total (text_of s.name) (text_of t.name) h

place-Perm : (st : Stat) (stats : List Stat) → Perm (place st stats) (st ∷ stats)
unfolding place
place-Perm st [] = Perm.rfl
place-Perm st (s ∷ stats) = elim (Bool-cases (comp_stat st s)) [
  | inl le ↦ subst (λ l. Perm l (st ∷ s ∷ stats)) (sym (if_true _ le)) Perm.rfl
  | inr gt ↦
      subst (λ l. Perm l (st ∷ s ∷ stats)) (sym (if_false _ gt))
        (Perm.trans (Perm.cons s (place-Perm st stats)) (Perm.swap st s stats))
]

-- Behind an entry that is not behind either.
place-behind :
    (s st : Stat) (stats : List Stat)
    → comp_stat s st ≡ true
    → IsSorted (s ∷ stats)
    → IsSorted (place st stats)
    → IsSorted (s ∷ place st stats)
unfolding place
place-behind s st [] le sorted placed = (le, placed)
place-behind s st (t ∷ stats) le (first, sorted) placed = elim (Bool-cases (comp_stat st t)) [
  | inl front ↦
      subst (λ l. IsSorted (s ∷ l)) (sym (if_true _ front))
        (le, subst IsSorted (if_true _ front) placed)
  | inr back ↦
      subst (λ l. IsSorted (s ∷ l)) (sym (if_false _ back))
        (first, subst IsSorted (if_false _ back) placed)
]

tail-IsSorted : (s : Stat) (stats : List Stat) → IsSorted (s ∷ stats) → IsSorted stats
tail-IsSorted s [] h = tt
tail-IsSorted s (t ∷ stats) h = h.1

place-IsSorted : (st : Stat) (stats : List Stat) → IsSorted stats → IsSorted (place st stats)
unfolding place
place-IsSorted st [] h = tt
place-IsSorted st (s ∷ stats) h = elim (Bool-cases (comp_stat st s)) [
  | inl le ↦ subst IsSorted (sym (if_true _ le)) (le, h)
  | inr gt ↦ subst IsSorted (sym (if_false _ gt)) (
      place-behind s st stats (comp_stat_total st s gt) h
        (place-IsSorted st stats (tail-IsSorted s stats h)))
]

pub qsort-IsSorted : (stats : List Stat) → IsSorted (qsort stats)
unfolding qsort
qsort-IsSorted [] = tt
qsort-IsSorted (st ∷ stats) = place-IsSorted st (qsort stats) (qsort-IsSorted stats)

pub qsort-Perm : (stats : List Stat) → Perm (qsort stats) stats
unfolding qsort
qsort-Perm [] = Perm.rfl
qsort-Perm (st ∷ stats) = Perm.trans (place-Perm st (qsort stats)) (Perm.cons st (qsort-Perm stats))
