-- ===== src/Rpc/Slots.antt =====
-- The slots of `wait` in libmixp/rpc.c: how many are taken, and the search for a free one.
use libmixp.Base.{
  ℕ, zero, suc, ◌+◌, ◌≤◌, ◌<◌, ◌≡◌, ◌≢◌, refl, true, false, Option, none, some, List, [], ◌∷◌, ◌++◌,
  length, get_or, set, replicate, arith, inl, inr, Bool-cases, le-cases,
}
use libmixp.Rpc.{is_free, find_free}

-- The number of the slots that an rpc has.
abbrev pub taken : List (Option ℕ) → ℕ
taken [] = 0
taken (none ∷ wait) = taken wait
taken (some r ∷ wait) = suc (taken wait)

pub taken-set-some :
    (wait : List (Option ℕ)) (i r : ℕ)
    → i < length wait
    → get_or wait i none ≡ none
    → taken (set wait i (some r)) ≡ taken wait + 1
taken-set-some [] i r h e = omega arith
taken-set-some (none ∷ wait) zero r h e = omega arith
taken-set-some (some q ∷ wait) zero r h e = cc
taken-set-some (none ∷ wait) (suc i) r h e = taken-set-some wait i r (omega arith) e
taken-set-some (some q ∷ wait) (suc i) r h e =
    omega (arith, taken-set-some wait i r (omega arith) e)

pub taken-set-none :
    (wait : List (Option ℕ)) (i r : ℕ)
    → get_or wait i none ≡ some r
    → taken (set wait i none) + 1 ≡ taken wait
taken-set-none [] i r e = cc
taken-set-none (none ∷ wait) zero r e = cc
taken-set-none (some q ∷ wait) zero r e = omega arith
taken-set-none (none ∷ wait) (suc i) r e = taken-set-none wait i r e
taken-set-none (some q ∷ wait) (suc i) r e = omega (arith, taken-set-none wait i r e)

pub taken-append : (xs ys : List (Option ℕ)) → taken (xs ++ ys) ≡ taken xs + taken ys
taken-append [] ys = omega arith
taken-append (none ∷ xs) ys = taken-append xs ys
taken-append (some r ∷ xs) ys = omega (arith, taken-append xs ys)

pub taken-replicate : (n : ℕ) → taken (replicate n none) ≡ 0
taken-replicate zero = refl
taken-replicate (suc n) = taken-replicate n

-- With a slot left, one of them is free.
pub taken-full :
    (wait : List (Option ℕ))
    → ((i : ℕ) → i < length wait → get_or wait i none ≢ none)
    → taken wait ≡ length wait
taken-full [] full = refl
taken-full (none ∷ wait) full = absurd (full 0 (omega arith) refl)
taken-full (some r ∷ wait) full = omega (arith, taken-full wait (λ i h. full (suc i) (omega arith)))

free_none : (o : Option ℕ) → is_free o ≡ true → o ≡ none
unfolding is_free
free_none none h = refl
free_none (some r) h = cc

taken_some : (o : Option ℕ) → is_free o ≡ false → o ≢ none
unfolding is_free
taken_some none h e = cc
taken_some (some r) h e = cc

pub find_free-some :
    (n i k : ℕ) (wait : List (Option ℕ))
    → find_free n i wait ≡ some k
    → (get_or wait k none ≡ none) × (i ≤ k) × (k < i + n)
unfolding find_free
find_free-some zero i k wait e = cc
find_free-some (suc n) i k wait e = elim (Bool-cases (is_free (get_or wait i none))) [
  | inl free ↦
      let same = rw free at e in
      let here : i ≡ k = cc (same) in
      (rw here at (free_none (get_or wait i none) free), omega (arith, here), omega (arith, here))
  | inr held ↦
      let found = find_free-some n (suc i) k wait (rw held at e) in
      (found.0, omega (arith, found.1), omega (arith, found.2))
]

pub find_free-none :
    (n i : ℕ) (wait : List (Option ℕ))
    → find_free n i wait ≡ none
    → (k : ℕ) → i ≤ k
    → k < i + n
    → get_or wait k none ≢ none
unfolding find_free
find_free-none zero i wait e k h l = omega arith
find_free-none (suc n) i wait e k h l = elim (Bool-cases (is_free (get_or wait i none))) [
  | inl free ↦ cc (rw free at e)
  | inr held ↦ elim (le-cases i k h) [
    | inl here ↦ rw here at (taken_some (get_or wait i none) held)
    | inr later ↦ find_free-none n (suc i) wait (rw held at e) k later (omega arith)
  ]
]
