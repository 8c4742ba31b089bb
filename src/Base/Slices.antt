-- ===== src/Base/Slices.antt =====
-- A block read in two pieces.
use Prim.Native.Nat.{ℕ, zero, suc, ◌+◌, ◌-◌, ◌≤◌, ◌<◌}
use mathlib.Core.Path.{◌≡◌, refl, ap}
use mathlib.Core.List.{[], ◌∷◌, ◌++◌}
use native.Mathlib.Omega.{arith}
use libmixp.Base.Lists.{length, take, drop}
use libmixp.Base.Blocks.{Bytes, read_at}

take_nil : (n : ℕ) → take {A = ℕ} n [] ≡ []
take_nil zero = refl
take_nil (suc n) = refl

drop_nil : (n : ℕ) → drop {A = ℕ} n [] ≡ []
drop_nil zero = refl
drop_nil (suc n) = refl

take-split : (xs : Bytes) (n r k : ℕ) → r + k ≡ n → take r xs ++ take k (drop r xs) ≡ take n xs
take-split xs n zero k h = ap (λ (j : ℕ). take j xs) (omega (arith, h))
take-split [] n (suc r) k h = rw (take_nil n, take_nil k)
take-split (x ∷ xs) zero (suc r) k h = absurd (omega (arith, h))
take-split (x ∷ xs) (suc n) (suc r) k h =
    ap (λ (t : Bytes). x ∷ t) (take-split xs n r k (omega (arith, h)))

pub drop-drop : (xs : Bytes) (p r q : ℕ) → q ≡ p + r → drop q xs ≡ drop r (drop p xs)
drop-drop xs zero r q h = ap (λ (j : ℕ). drop j xs) (omega (arith, h))
drop-drop [] (suc p) zero q h = drop_nil q
drop-drop [] (suc p) (suc r) zero h = refl
drop-drop [] (suc p) (suc r) (suc q) h = refl
drop-drop (x ∷ xs) (suc p) r zero h = absurd (omega (arith, h))
drop-drop (x ∷ xs) (suc p) r (suc q) h = drop-drop xs p r q (omega (arith, h))

pub read_at-split :
    (buf : Bytes) (p n r : ℕ)
    → r ≤ n
    → read_at buf p r ++ read_at buf (p + r) (n - r) ≡ read_at buf p n
read_at-split buf p n r h =
    rw (drop-drop buf p r (p + r) refl) (take-split (drop p buf) n r (n - r) (omega arith))

pub take-take : (xs : Bytes) (r n : ℕ) → r ≤ n → take r (take n xs) ≡ take r xs
take-take xs zero n h = refl
take-take [] (suc r) n h = rw (take_nil n)
take-take (x ∷ xs) (suc r) zero h = absurd (omega arith)
take-take (x ∷ xs) (suc r) (suc n) h = ap (λ (t : Bytes). x ∷ t) (take-take xs r n (omega arith))

-- What is shorter than what was asked for is all there is.
pub take_short : (xs : Bytes) (r n : ℕ) → length (take r xs) < r → r ≤ n → take n xs ≡ take r xs
take_short xs zero n h l = absurd (omega arith)
take_short [] (suc r) n h l = take_nil n
take_short (x ∷ xs) (suc r) zero h l = absurd (omega arith)
take_short (x ∷ xs) (suc r) (suc n) h l =
    ap (λ (t : Bytes). x ∷ t) (take_short xs r n (omega arith) (omega arith))

-- What was taken and the rest.
pub take-rest : (xs : Bytes) (k : ℕ) → take k xs ++ drop (length (take k xs)) xs ≡ xs
take-rest xs zero = refl
take-rest [] (suc k) = refl
take-rest (x ∷ xs) (suc k) = ap (λ (t : Bytes). x ∷ t) (take-rest xs k)
