-- ===== src/Base/Blocks.antt =====
-- Blocks of memory as lists of byte values: copies into a block and out of it.
use Prim.Native.Nat.{ℕ, zero, suc, ◌+◌, ◌≤◌, ◌<◌}
use mathlib.Core.Path.{◌≡◌, refl, ap}
use mathlib.Core.List.{List, [], ◌∷◌, ◌++◌}
use native.Mathlib.Omega.{arith}
use libmixp.Base.Lists.{length, take, drop, get_or}

abbrev pub Bytes : Type 0
Bytes = List ℕ

-- `memcpy(&buf[p], bs, length bs)`; what would lie behind the block is dropped.
abbrev pub write_at : Bytes → ℕ → Bytes → Bytes
write_at [] p bs = []
write_at (x ∷ buf) (suc p) bs = x ∷ write_at buf p bs
write_at (x ∷ buf) zero [] = x ∷ buf
write_at (x ∷ buf) zero (b ∷ bs) = b ∷ write_at buf zero bs

-- `memcpy(…, &buf[p], n)`
abbrev pub read_at : Bytes → ℕ → ℕ → Bytes
read_at buf p n = take n (drop p buf)

-- Exactly `n` bytes from a block; zeros stand for what lies behind its end.
abbrev pub padded : ℕ → Bytes → Bytes
padded zero bs = []
padded (suc n) [] = 0 ∷ padded n []
padded (suc n) (b ∷ bs) = b ∷ padded n bs

pub length-padded : (n : ℕ) (bs : Bytes) → length (padded n bs) ≡ n
length-padded zero bs = refl
length-padded (suc n) [] = ap suc (length-padded n [])
length-padded (suc n) (b ∷ bs) = ap suc (length-padded n bs)

pub padded-length : (bs : Bytes) → padded (length bs) bs ≡ bs
padded-length [] = refl
padded-length (b ∷ bs) = ap (λ t. b ∷ t) (padded-length bs)

pub length-write_at : (buf : Bytes) (p : ℕ) (bs : Bytes) → length (write_at buf p bs) ≡ length buf
length-write_at [] p bs = refl
length-write_at (x ∷ buf) (suc p) bs = ap suc (length-write_at buf p bs)
length-write_at (x ∷ buf) zero [] = refl
length-write_at (x ∷ buf) zero (b ∷ bs) = ap suc (length-write_at buf zero bs)

pub write_at_nil : (buf : Bytes) (p : ℕ) → write_at buf p [] ≡ buf
write_at_nil [] p = refl
write_at_nil (x ∷ buf) (suc p) = ap (λ t. x ∷ t) (write_at_nil buf p)
write_at_nil (x ∷ buf) zero = refl

-- Two copies, one behind the other, are one copy.
pub write_at-write_at :
    (buf : Bytes) (p q : ℕ) (xs ys : Bytes)
    → q ≡ p + length xs
    → write_at (write_at buf p xs) q ys ≡ write_at buf p (xs ++ ys)
write_at-write_at [] p q xs ys h = refl
write_at-write_at (b ∷ buf) (suc p) zero xs ys h = absurd (omega arith)
write_at-write_at (b ∷ buf) (suc p) (suc q) xs ys h =
    ap (λ t. b ∷ t) (write_at-write_at buf p q xs ys (omega arith))
write_at-write_at (b ∷ buf) zero zero [] ys h = refl
write_at-write_at (b ∷ buf) zero (suc q) [] ys h = absurd (omega arith)
write_at-write_at (b ∷ buf) zero zero (x ∷ xs) ys h = absurd (omega arith)
write_at-write_at (b ∷ buf) zero (suc q) (x ∷ xs) ys h =
    ap (λ t. x ∷ t) (write_at-write_at buf zero q xs ys (omega arith))

-- What was copied into a block is read back from it.
pub read_at-write_at :
    (buf : Bytes) (p : ℕ) (bs : Bytes)
    → p + length bs ≤ length buf
    → read_at (write_at buf p bs) p (length bs) ≡ bs
read_at-write_at [] zero [] h = refl
read_at-write_at [] zero (b ∷ bs) h = absurd (omega arith)
read_at-write_at [] (suc p) bs h = absurd (omega arith)
read_at-write_at (x ∷ buf) (suc p) bs h = read_at-write_at buf p bs (omega arith)
read_at-write_at (x ∷ buf) zero [] h = refl
read_at-write_at (x ∷ buf) zero (b ∷ bs) h =
    ap (λ t. b ∷ t) (read_at-write_at buf zero bs (omega arith))

-- A copy into the front of a block leaves what lies behind it alone.
pub read_at-write_before :
    (buf : Bytes) (q : ℕ) (bs : Bytes) (p n : ℕ)
    → q + length bs ≤ p
    → read_at (write_at buf q bs) p n ≡ read_at buf p n
read_at-write_before [] q bs p n h = refl
read_at-write_before (x ∷ buf) (suc q) bs zero n h = absurd (omega arith)
read_at-write_before (x ∷ buf) (suc q) bs (suc p) n h =
    read_at-write_before buf q bs p n (omega arith)
read_at-write_before (x ∷ buf) zero [] p n h = refl
read_at-write_before (x ∷ buf) zero (b ∷ bs) zero n h = absurd (omega arith)
read_at-write_before (x ∷ buf) zero (b ∷ bs) (suc p) n h =
    read_at-write_before buf zero bs p n (omega arith)

-- The bytes `bs` stand in the block at `p`.
abbrev pub Holds : Bytes → ℕ → Bytes → Type 0
Holds buf p [] = Unit
Holds buf p (b ∷ bs) = (get_or buf p 0 ≡ b) × Holds buf (suc p) bs

pub Holds-left : (buf : Bytes) (p : ℕ) (xs ys : Bytes) → Holds buf p (xs ++ ys) → Holds buf p xs
Holds-left buf p [] ys h = tt
Holds-left buf p (x ∷ xs) ys (e, h) = (e, Holds-left buf (suc p) xs ys h)

pub Holds-right :
    (buf : Bytes) (p q : ℕ) (xs ys : Bytes)
    → q ≡ p + length xs
    → Holds buf p (xs ++ ys)
    → Holds buf q ys
Holds-right buf p q [] ys e h = rw (let same : q ≡ p = omega arith in same) h
Holds-right buf p q (x ∷ xs) ys e (_, h) = Holds-right buf (suc p) q xs ys (omega arith) h

drop_step : (buf : Bytes) (p : ℕ) → p < length buf → drop p buf ≡ get_or buf p 0 ∷ drop (suc p) buf
drop_step [] p h = absurd (omega arith)
drop_step (x ∷ buf) zero h = refl
drop_step (x ∷ buf) (suc p) h = drop_step buf p (omega arith)

pub read_at-Holds :
    (buf : Bytes) (p : ℕ) (bs : Bytes)
    → p + length bs ≤ length buf
    → Holds buf p bs
    → read_at buf p (length bs) ≡ bs
read_at-Holds buf p [] room h = refl
read_at-Holds buf p (b ∷ bs) room (e, h) =
    rw (drop_step buf p (omega arith), e, read_at-Holds buf (suc p) bs (omega arith) h)

pub Holds-read_at :
    (buf : Bytes) (p : ℕ) (bs : Bytes)
    → p + length bs ≤ length buf
    → read_at buf p (length bs) ≡ bs
    → Holds buf p bs
Holds-read_at buf p [] room h = tt
Holds-read_at buf p (b ∷ bs) room h =
    let step : get_or buf p 0 ∷ read_at buf (suc p) (length bs) ≡ b ∷ bs =
      rw (drop_step buf p (omega arith)) at h in
    (cc step, Holds-read_at buf (suc p) bs (omega arith) (cc step))

pub Holds-append :
    (buf : Bytes) (p q : ℕ) (xs ys : Bytes)
    → q ≡ p + length xs
    → Holds buf p xs
    → Holds buf q ys
    → Holds buf p (xs ++ ys)
Holds-append buf p q [] ys e h k = rw (let same : p ≡ q = omega arith in same) k
Holds-append buf p q (x ∷ xs) ys e (first, h) k =
    (first, Holds-append buf (suc p) q xs ys (omega arith) h k)

pub drop-write_at :
    (buf : Bytes) (p : ℕ) (bs : Bytes) (e : ℕ)
    → p + length bs ≤ e
    → drop e (write_at buf p bs) ≡ drop e buf
drop-write_at [] p bs e h = refl
drop-write_at (x ∷ buf) (suc p) bs zero h = absurd (omega arith)
drop-write_at (x ∷ buf) (suc p) bs (suc e) h = drop-write_at buf p bs e (omega arith)
drop-write_at (x ∷ buf) zero [] e h = refl
drop-write_at (x ∷ buf) zero (b ∷ bs) zero h = absurd (omega arith)
drop-write_at (x ∷ buf) zero (b ∷ bs) (suc e) h = drop-write_at buf zero bs e (omega arith)
