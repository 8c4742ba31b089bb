-- ===== src/Fatal/Digits.antt =====
-- The number in the message of `ixp_mfatal` of libmixp/util.c.
use libmixp.Base.{
  ℕ, zero, suc, ◌+◌, ◌*◌, ◌/◌, ◌%◌, ◌≤◌, ◌<◌, ◌≡◌, refl, inl, inr, true, false, Option, none, some,
  [], ◌∷◌, ◌++◌, Bytes, ◌==◌, arith, Bool-cases,
}
use libmixp.Fatal.{
  digit_loop, couldnot, paren, bytes, malloc_name, Alloc, exits, overruns, message, ixp_mfatal,
  checked, ixp_emalloc,
}
use libmixp.Addr.{pos, atoi}
use libmixp.Addr.Decimal.{atoi-digit_loop}

abbrev ten_to : ℕ → ℕ
ten_to zero = 1
ten_to (suc i) = 10 * ten_to i

ten_to_pos : (i : ℕ) → 0 < ten_to i
ten_to_pos zero = omega arith
ten_to_pos (suc i) = omega (arith, ten_to_pos i)

small : (size : ℕ) → size < 10 → (size / 10 == 0) ≡ true
small size h = ground arith

large : (size : ℕ) → 10 ≤ size → (size / 10 == 0) ≡ false
large size h = ground arith

digit_loop-some :
    (i size : ℕ) (s : Bytes)
    → size < ten_to (suc i)
    → (digits : Bytes) × (digit_loop (suc i) size s ≡ some digits)
unfolding digit_loop
digit_loop-some zero size s h = ((b'0' + size % 10) ∷ s, rw (small size (omega arith)) refl)
digit_loop-some (suc i) size s h = elim (Bool-cases (size / 10 == 0)) [
  | inl last ↦ ((b'0' + size % 10) ∷ s, rw last refl)
  | inr more ↦ rw more (digit_loop-some i (size / 10) ((b'0' + size % 10) ∷ s) (omega arith))
]

digit_loop-none : (i size : ℕ) (s : Bytes) → ten_to i ≤ size → digit_loop i size s ≡ none
unfolding digit_loop
digit_loop-none zero size s h = refl
digit_loop-none (suc i) size s h =
    rw (large size (omega (arith, ten_to_pos i)))
      (digit_loop-none i (size / 10) ((b'0' + size % 10) ∷ s) (omega arith))

-- The text around the number, and the number in it.
abbrev pub Reports : Bytes → ℕ → Alloc → Type 0
Reports name size r =
    (digits : Bytes) × (r ≡ exits (couldnot ++ (name ++ (paren ++ (digits ++ bytes)))))
    × (atoi digits ≡ pos size)

mfatal_small :
    (name : Bytes) (size : ℕ) → size < ten_to 8 → Reports name size (ixp_mfatal name size)
unfolding ixp_mfatal message
mfatal_small name size h =
    let (digits, e) = digit_loop-some 7 size [] h in
    (digits, rw (e, message) refl, atoi-digit_loop 8 size digits e)

mfatal_large : (name : Bytes) (size : ℕ) → ten_to 8 ≤ size → ixp_mfatal name size ≡ overruns
unfolding ixp_mfatal message
mfatal_large name size h = rw (digit_loop-none 8 size [] h) refl

-- Where `malloc` fails, a request for fewer than 100,000,000 bytes ends the process with a message whose
-- number is read back as that size; with a request for more, the message is written outside of its array.
pub ixp_emalloc_failed :
    (malloc : ℕ → Option ℕ) (size : ℕ)
    → malloc size ≡ none
    → (size < 100000000 → Reports malloc_name size (ixp_emalloc malloc size))
      × (100000000 ≤ size → ixp_emalloc malloc size ≡ overruns)
unfolding ixp_emalloc checked
ixp_emalloc_failed malloc size failed = (
  λ h. rw (failed, checked) (mfatal_small malloc_name size h),
  λ h. rw (failed, checked) (mfatal_large malloc_name size h),
)
