-- ===== src/Ixpc/Words.antt =====
-- The block of `xawrite` of cmd/ixpc.c.
use libmixp.Base.{
  ℕ, suc, ◌+◌, ◌≤◌, ◌<◌, ◌≡◌, sym, ap, ◌∙◌, Bool, true, false, none, some, List, [], ◌∷◌, ◌++◌,
  Bytes, length, lt→ltb, ltb_le, ◌==◌, if_true, if_false, arith, length-append,
}
use mathlib.Core.List.{append_assoc, append-nil}
use libmixp.Ixpc.{is_last, room_for, put_arg, then_more, gather}

-- The words with a space between two.
abbrev pub joined : List Bytes → Bytes
joined [] = []
joined (arg ∷ []) = arg
joined (arg ∷ other ∷ argv) = arg ++ 32 ∷ joined (other ∷ argv)

no_growth : (mbuf n : ℕ) → n ≤ mbuf → room_for mbuf n ≡ mbuf
unfolding room_for
no_growth mbuf n h = if_false _ (ltb_le mbuf n h)

differ : (a b : ℕ) → a < b → (a == b) ≡ false
differ a b h = ground arith

put_last : (mbuf : ℕ) (full : Bytes) → length full ≤ mbuf → put_arg true mbuf full ≡ some full
unfolding put_arg
put_last mbuf full h = if_false _ (ltb_le mbuf (length full) h)

put_spaced :
    (mbuf : ℕ) (full : Bytes)
    → length full < mbuf
    → put_arg false mbuf full ≡ some (full ++ 32 ∷ [])
unfolding put_arg
put_spaced mbuf full h =
    if_false _ (ltb_le mbuf (length full) (omega (arith, h)))
    ∙ if_false _ (differ (length full) mbuf h)

put_behind :
    (last : Bool) (mbuf : ℕ) (full : Bytes) → mbuf < length full → put_arg last mbuf full ≡ none
unfolding put_arg
put_behind last mbuf full h = if_true _ (lt→ltb mbuf (length full) h)

put_full : (mbuf : ℕ) (full : Bytes) → length full ≡ mbuf → put_arg false mbuf full ≡ none
unfolding put_arg
put_full mbuf full h =
    if_false _ (ltb_le mbuf (length full) (omega (arith, h)))
    ∙ if_true _ (let both : (length full == mbuf) ≡ true = ground arith in both)

-- One word, behind which the block is as large as it was.
step :
    (arg : Bytes) (argv : List Bytes) (mbuf grown : ℕ) (buf full : Bytes)
    → room_for mbuf (length buf + length arg) ≡ grown
    → put_arg (is_last argv) grown (buf ++ arg) ≡ some full
    → gather (arg ∷ argv) mbuf buf ≡ gather argv grown full
unfolding gather then_more
step arg argv mbuf grown buf full g e =
    ap (λ (n : ℕ). then_more (λ b. gather argv n b) (put_arg (is_last argv) n (buf ++ arg))) g
    ∙ ap (then_more (λ b. gather argv grown b)) e

stuck :
    (arg : Bytes) (argv : List Bytes) (mbuf grown : ℕ) (buf : Bytes)
    → room_for mbuf (length buf + length arg) ≡ grown
    → put_arg (is_last argv) grown (buf ++ arg) ≡ none
    → gather (arg ∷ argv) mbuf buf ≡ none
unfolding gather then_more
stuck arg argv mbuf grown buf g e =
    ap (λ (n : ℕ). then_more (λ b. gather argv n b) (put_arg (is_last argv) n (buf ++ arg))) g
    ∙ ap (then_more (λ b. gather argv grown b)) e

gather-fits :
    (argv : List Bytes) (mbuf : ℕ) (buf : Bytes)
    → length buf + length (joined argv) ≤ mbuf
    → gather argv mbuf buf ≡ some (buf ++ joined argv)
unfolding gather then_more is_last
gather-fits [] mbuf buf fits = ap some (sym (append-nil buf))
gather-fits (arg ∷ []) mbuf buf fits =
    step arg [] mbuf mbuf buf (buf ++ arg) (no_growth mbuf _ fits)
      (put_last mbuf (buf ++ arg) (omega (arith, fits, length-append buf arg)))
gather-fits (arg ∷ other ∷ argv) mbuf buf fits =
    let rest = joined (other ∷ argv) in
    let size : length (joined (arg ∷ other ∷ argv)) ≡ length arg + suc (length rest) =
      omega (arith, length-append arg (32 ∷ rest)) in
    let full = buf ++ arg in
    let full_size : length full ≡ length buf + length arg = length-append buf arg in
    let spaced = full ++ 32 ∷ [] in
    step arg (other ∷ argv) mbuf mbuf buf spaced (no_growth mbuf _ (omega (arith, fits, size)))
      (put_spaced mbuf full (omega (arith, fits, size, full_size)))
    ∙ gather-fits (other ∷ argv) mbuf spaced
        (omega (arith, fits, size, full_size, length-append full (32 ∷ [])))
    ∙ ap some (append_assoc full (32 ∷ []) rest ∙ append_assoc buf arg (32 ∷ rest))

-- Words that take at most 128 bytes with a space between two are gathered to these. A word of 128 bytes in
-- front of another is a write behind the block, since the space is not counted, and so is a word of more than
-- 256 bytes at the start, since the block is doubled once.
pub gather-joined :
    ((argv : List Bytes) → length (joined argv) ≤ 128 → gather argv 128 [] ≡ some (joined argv))
    × ((arg other : Bytes) (argv : List Bytes)
        → length arg ≡ 128
        → gather (arg ∷ other ∷ argv) 128 [] ≡ none)
    × ((arg : Bytes) (argv : List Bytes) → 256 < length arg → gather (arg ∷ argv) 128 [] ≡ none)
unfolding is_last room_for
gather-joined = (
  λ argv fits. gather-fits argv 128 [] (omega (arith, fits)),
  λ arg other argv e.
      stuck arg (other ∷ argv) 128 128 [] (no_growth 128 _ (omega (arith, e))) (put_full 128 arg e),
  λ arg argv h.
      stuck arg argv 128 256 [] (if_true _ (lt→ltb 128 (0 + length arg) (omega (arith, h))))
        (put_behind _ 256 arg h),
)
