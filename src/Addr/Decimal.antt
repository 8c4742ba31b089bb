-- ===== src/Addr/Decimal.antt =====
-- `atoi` reads back what the digit loop of libmixp/util.c writes.
use libmixp.Base.{
  ℕ, zero, suc, ◌+◌, ◌*◌, ◌/◌, ◌%◌, ◌≡◌, refl, ap, ◌∙◌, inl, inr, true, false, some, [], ◌∷◌, Bytes,
  ◌==◌, arith, Bool-cases,
}
use libmixp.Tokenizer.Paths.{Lacks}
use libmixp.Fatal.{digit_loop}
use libmixp.Addr.{pos, is_digit, is_space, digits_from, signed, skip_space, atoi}

abbrev pub AllDigits : Bytes → Type 0
AllDigits [] = Unit
AllDigits (c ∷ s) = (is_digit c ≡ true) × AllDigits s

digit : (k : ℕ) → is_digit (b'0' + k % 10) ≡ true
unfolding is_digit
digit k = ground arith

digits_from-digit :
    (n k : ℕ) (s : Bytes) → digits_from n ((b'0' + k % 10) ∷ s) ≡ digits_from (n * 10 + k % 10) s
unfolding digits_from
digits_from-digit n k s = rw (digit k) (ap (λ (m : ℕ). digits_from m s) (omega arith))

-- The digits that the loop adds before those of `s` read as `size`.
pub digits_from-digit_loop :
    (i size : ℕ) (s ds : Bytes)
    → digit_loop i size s ≡ some ds
    → digits_from 0 ds ≡ digits_from size s
unfolding digit_loop
digits_from-digit_loop zero size s ds h = cc
digits_from-digit_loop (suc i) size s ds h = elim (Bool-cases (size / 10 == 0)) [
  | inl last ↦
      let e : some ((b'0' + size % 10) ∷ s) ≡ some ds = rw last at h in
      let same : (b'0' + size % 10) ∷ s ≡ ds = cc e in
      rw (← same) (digits_from-digit 0 size s ∙ ap (λ (m : ℕ). digits_from m s) (ground arith))
  | inr more ↦
      digits_from-digit_loop i (size / 10) ((b'0' + size % 10) ∷ s) ds (rw more at h)
      ∙ digits_from-digit (size / 10) size s
      ∙ ap (λ (m : ℕ). digits_from m s) (omega arith)
]

pub digit_loop-AllDigits :
    (i size : ℕ) (s ds : Bytes) → AllDigits s → digit_loop i size s ≡ some ds → AllDigits ds
unfolding digit_loop
digit_loop-AllDigits zero size s ds a h = cc
digit_loop-AllDigits (suc i) size s ds a h = elim (Bool-cases (size / 10 == 0)) [
  | inl last ↦
      let e : some ((b'0' + size % 10) ∷ s) ≡ some ds = rw last at h in
      let same : (b'0' + size % 10) ∷ s ≡ ds = cc e in rw (← same) (digit size, a)
  | inr more ↦
      digit_loop-AllDigits i (size / 10) ((b'0' + size % 10) ∷ s) ds (digit size, a) (rw more at h)
]

pub digit_ne : (c d : ℕ) → is_digit c ≡ true → is_digit d ≡ false → (c == d) ≡ false
unfolding is_digit
digit_ne c d h k = ground arith

pub AllDigits-Lacks : (d : ℕ) (s : Bytes) → is_digit d ≡ false → AllDigits s → Lacks d s
AllDigits-Lacks d [] h a = tt
AllDigits-Lacks d (c ∷ s) h (first, a) = (digit_ne c d first h, AllDigits-Lacks d s h a)

no_space : (c : ℕ) → is_digit c ≡ true → is_space c ≡ false
unfolding is_digit is_space
no_space c h = ground arith

pub atoi-AllDigits : (s : Bytes) → AllDigits s → atoi s ≡ pos (digits_from 0 s)
unfolding atoi skip_space signed
atoi-AllDigits [] a = ap pos (unfold digits_from in refl)
atoi-AllDigits (c ∷ s) (first, a) = rw (
  no_space c first,
  digit_ne c b'-' first (unfold is_digit in refl),
  digit_ne c b'+' first (unfold is_digit in refl),
)

pub atoi-digit_loop : (i n : ℕ) (ds : Bytes) → digit_loop i n [] ≡ some ds → atoi ds ≡ pos n
unfolding digits_from
atoi-digit_loop i n ds h =
    atoi-AllDigits ds (digit_loop-AllDigits i n [] ds tt h)
    ∙ ap pos (digits_from-digit_loop i n [] ds h)
