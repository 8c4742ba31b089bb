-- ===== src/Message/Names.antt =====
-- The print-out of libmixp/message.c, over the names of a walk that was received.
use libmixp.Base.{
  ℕ, zero, suc, ◌+◌, ◌≤◌, ◌<◌, ◌≡◌, refl, ◌∙◌, inl, inr, none, some, List, [], ◌∷◌, Bytes, length,
  get_elem?, get_or, set, get_elem?-set_self, get_elem?-set_ne, Option-cases, ltb, Bool-cases,
  length-set, le-cases, arith,
}
use native.Mathlib.Nat.{le_refl}
use libmixp.Compound.{Str}
use libmixp.Compound.Unpack.{copy_names}
use libmixp.Fcall.{Fcall, FcallType, t_walk, dump, dump_names, readable, add_name, dump_size}
use libmixp.Message.Wire.{Carries, carried}

-- `g` has room for the names of a walk.
abbrev pub HasSlots : Fcall → Type 0
HasSlots g = 16 ≤ length g.wname

get_elem?-copy_below :
    (n i j : ℕ) (from onto : List Str)
    → j < i
    → get_elem? (copy_names n i from onto) j ≡ get_elem? onto j
get_elem?-copy_below zero i j from onto h = refl
get_elem?-copy_below (suc n) i j from onto h =
    get_elem?-copy_below n (suc i) j from (set onto i (get_or from i none)) (omega arith)
    ∙ get_elem?-set_ne onto (get_or from i none) (omega arith)

get_elem?-copy_names :
    (n i j : ℕ) (from onto : List Str)
    → i + n ≤ length onto
    → i ≤ j
    → j < i + n
    → get_elem? (copy_names n i from onto) j ≡ some (get_or from j none)
get_elem?-copy_names zero i j from onto room lo hi = absurd (omega arith)
get_elem?-copy_names (suc n) i j from onto room lo hi =
    let next = set onto i (get_or from i none) in
    let width = length-set onto i (get_or from i none) in
    elim (le-cases i j lo) [
      | inl e ↦ rw (← e) (
          get_elem?-copy_below n (suc i) i from next (omega arith)
          ∙ get_elem?-set_self onto i (get_or from i none) (omega arith))
      | inr less ↦ get_elem?-copy_names n (suc i) j from next (omega arith) less (omega arith)
    ]

readable-get_or :
    (xs : List Str) (i : ℕ) (text : Bytes)
    → readable (get_elem? xs i) ≡ some text
    → readable (some (get_or xs i none)) ≡ some text
unfolding readable
readable-get_or [] i text h = cc
readable-get_or (x ∷ xs) zero text h = h
readable-get_or (x ∷ xs) (suc i) text h = readable-get_or xs i text h

dump_names-agree :
    (n i : ℕ) (from other : List Str) (dumped shown : Bytes)
    → ((j : ℕ) → i ≤ j → j < i + n → get_elem? other j ≡ some (get_or from j none))
    → dump_names n i from dumped ≡ some shown
    → dump_names n i other dumped ≡ some shown
unfolding dump_names
dump_names-agree zero i from other dumped shown same h = h
dump_names-agree (suc n) i from other dumped shown same h =
    elim (Option-cases (readable (get_elem? from i))) [
      | inl e ↦ cc (rw (e, dump_names) at h)
      | inr (text, e) ↦
          let here : readable (get_elem? other i) ≡ some text =
            rw (same i (le_refl i) (omega arith)) (readable-get_or from i text e) in
          let step = rw (e, dump_names) at h in
          elim (Bool-cases (ltb (length (add_name i text dumped)) dump_size)) [
            | inl fits ↦
                rw (here, dump_names, fits)
                  (dump_names-agree n (suc i) from other (add_name i text dumped) shown
                    (λ j lo hi. same j (omega arith) (omega arith)) (rw fits at step))
            | inr full ↦ cc (rw full at step)
          ]
    ]

-- The print-out of what was received is that of what was sent.
pub dump-carried :
    (t : FcallType) (f g : Fcall) (shown : Bytes)
    → Carries t f
    → HasSlots g
    → dump t f ≡ some shown
    → dump t (carried t f g) ≡ some shown
unfolding dump
dump-carried t_walk f g shown (_, _, few, _) slots h =
    dump_names-agree f.nwname 0 f.wname (copy_names f.nwname 0 f.wname g.wname) [] shown
      (λ j lo hi. get_elem?-copy_names f.nwname 0 j f.wname g.wname (omega arith) lo hi) h
dump-carried _ f g shown c slots h = h
