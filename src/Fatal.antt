-- ===== src/Fatal.antt =====
-- The allocation failures of libmixp/util.c: `ixp_mfatal`, `ixp_emalloc` and `ixp_erealloc`. The library's
-- `malloc` and `realloc` are a parameter; an address is a number.
pub mod Digits
use libmixp.Base.{
  ℕ, zero, suc, ◌+◌, ◌/◌, ◌%◌, Option, none, some, List, [], ◌∷◌, ◌++◌, Bytes, ◌==◌, if◌then◌else◌,
}

-- `do { sizestr[--i] = '0' + (size%10); size /= 10; } while (size > 0)` with `i` places left in front:
-- `none` is a write before the array.
unfoldable pub digit_loop : ℕ → ℕ → Bytes → Option Bytes
digit_loop zero size sizestr = none
digit_loop (suc i) size sizestr =
    let more = digit_loop i (size / 10) ((b'0' + size % 10) ∷ sizestr) in
    if size / 10 == 0 then some ((b'0' + size % 10) ∷ sizestr) else more

-- "libixp: fatal: Could not ", "() " and " bytes\n"
abbrev pub couldnot : Bytes
couldnot =
    b'l' ∷ b'i' ∷ b'b' ∷ b'i' ∷ b'x' ∷ b'p' ∷ b':' ∷ 32 ∷ b'f' ∷ b'a' ∷ b't' ∷ b'a' ∷ b'l' ∷ b':'
    ∷ 32 ∷ b'C' ∷ b'o' ∷ b'u' ∷ b'l' ∷ b'd' ∷ 32 ∷ b'n' ∷ b'o' ∷ b't' ∷ 32 ∷ []

abbrev pub paren : Bytes
paren = b'(' ∷ b')' ∷ 32 ∷ []

abbrev pub bytes : Bytes
bytes = 32 ∷ b'b' ∷ b'y' ∷ b't' ∷ b'e' ∷ b's' ∷ 10 ∷ []

abbrev pub sizestr_size : ℕ
sizestr_size = 8

-- What the process leaves behind: its output and exit code 1, or a write outside of `sizestr`.
pub data Alloc : Type 0 where
  allocated : ℕ → Alloc
  exits : Bytes → Alloc
  overruns : Alloc

unfoldable pub message : Bytes → Option Bytes → Alloc
message name none = overruns
message name (some digits) = exits (couldnot ++ (name ++ (paren ++ (digits ++ bytes))))

unfoldable pub ixp_mfatal : Bytes → ℕ → Alloc
ixp_mfatal name size = message name (digit_loop sizestr_size size [])

unfoldable pub checked : Bytes → ℕ → Option ℕ → Alloc
checked name size none = ixp_mfatal name size
checked name size (some ret) = allocated ret

abbrev pub malloc_name : Bytes
malloc_name = b'm' ∷ b'a' ∷ b'l' ∷ b'l' ∷ b'o' ∷ b'c' ∷ []

abbrev pub realloc_name : Bytes
realloc_name = b'r' ∷ b'e' ∷ b'a' ∷ b'l' ∷ b'l' ∷ b'o' ∷ b'c' ∷ []

unfoldable pub ixp_emalloc : (ℕ → Option ℕ) → ℕ → Alloc
ixp_emalloc malloc size = checked malloc_name size (malloc size)

unfoldable pub ixp_erealloc : (ℕ → ℕ → Option ℕ) → ℕ → ℕ → Alloc
ixp_erealloc realloc ptr size = checked realloc_name size (realloc ptr size)
