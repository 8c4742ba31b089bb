-- ===== src/Tokenizer.antt =====
-- `ixp_tokenize` of libmixp/util.c. A string is the list of its bytes. The pointers that the function
-- stores are read when it has returned: a token then reaches up to the delimiter that the loop has
-- overwritten, and the last that has room up to the end of the string.
pub mod Paths
use libmixp.Base.{ℕ, zero, suc, List, [], ◌∷◌, Bytes, ◌==◌, if◌then◌else◌}

-- `while(*s == delim) *(s++) = '\0'`
unfoldable pub skip : ℕ → Bytes → Bytes
skip delim [] = []
skip delim (c ∷ s) = if c == delim then skip delim s else c ∷ s

-- What `while(*s && *s != delim) s++` passes, and where it ends.
unfoldable pub token : ℕ → Bytes → Bytes
token delim [] = []
token delim (c ∷ s) = if c == delim then [] else c ∷ token delim s

unfoldable pub behind : ℕ → Bytes → Bytes
behind delim [] = []
behind delim (c ∷ s) = if c == delim then c ∷ s else behind delim s

-- The loop with room for as many tokens; each round but the last stores one.
unfoldable pub tokenize : ℕ → ℕ → Bytes → List Bytes
tokenize delim zero s = []
tokenize delim (suc zero) s = elim (skip delim s) [ [] ↦ [] | c ∷ s1 ↦ (c ∷ s1) ∷ [] ]
tokenize delim (suc (suc room)) s = elim (skip delim s) [
  | [] ↦ []
  | c ∷ s1 ↦ token delim (c ∷ s1) ∷ tokenize delim (suc room) (behind delim (c ∷ s1))
]
