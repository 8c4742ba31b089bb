-- ===== src/Tokenizer/Paths.antt =====
-- The names of a path, as `ixp_tokenize` of libmixp/util.c finds them.
use libmixp.Base.{
  ℕ, zero, suc, ◌≤◌, ◌<◌, ◌≡◌, refl, ap, ◌∙◌, false, List, [], ◌∷◌, ◌++◌, Bytes, length, ◌==◌,
  ==_refl, arith,
}
use mathlib.Core.List.{append-nil}
use libmixp.Tokenizer.{skip, token, behind, tokenize}

-- No byte is the delimiter.
abbrev pub Lacks : ℕ → Bytes → Type 0
Lacks delim [] = Unit
Lacks delim (c ∷ s) = ((c == delim) ≡ false) × Lacks delim s

abbrev pub IsName : ℕ → Bytes → Type 0
IsName delim s = (0 < length s) × Lacks delim s

abbrev pub AllNames : ℕ → List Bytes → Type 0
AllNames delim [] = Unit
AllNames delim (w ∷ ws) = IsName delim w × AllNames delim ws

-- Each name behind a delimiter.
abbrev pub path : ℕ → List Bytes → Bytes
path delim [] = []
path delim (w ∷ ws) = delim ∷ (w ++ path delim ws)

token-path : (delim : ℕ) (ws : List Bytes) → token delim (path delim ws) ≡ []
unfolding token
token-path delim [] = refl
token-path delim (w ∷ ws) = rw (==_refl delim)

behind-path : (delim : ℕ) (ws : List Bytes) → behind delim (path delim ws) ≡ path delim ws
unfolding behind
behind-path delim [] = refl
behind-path delim (w ∷ ws) = rw (==_refl delim)

token-name :
    (delim : ℕ) (w : Bytes) (ws : List Bytes) → Lacks delim w → token delim (w ++ path delim ws) ≡ w
unfolding token
token-name delim [] ws l = token-path delim ws
token-name delim (c ∷ w) ws (other, l) = rw (other, token-name delim w ws l)

behind-name :
    (delim : ℕ) (w : Bytes) (ws : List Bytes)
    → Lacks delim w
    → behind delim (w ++ path delim ws) ≡ path delim ws
unfolding behind
behind-name delim [] ws l = behind-path delim ws
behind-name delim (c ∷ w) ws (other, l) = rw (other, behind-name delim w ws l)

skip-path :
    (delim c : ℕ) (w : Bytes) (ws : List Bytes)
    → (c == delim) ≡ false
    → skip delim (path delim ((c ∷ w) ∷ ws)) ≡ c ∷ (w ++ path delim ws)
unfolding skip
skip-path delim c w ws other = rw (==_refl delim, other)

-- A round of the loop behind the delimiters.
stored : ℕ → ℕ → Bytes → List Bytes
stored delim room s = elim s [
  | [] ↦ []
  | c ∷ s1 ↦ token delim (c ∷ s1) ∷ tokenize delim (suc room) (behind delim (c ∷ s1))
]

round :
    (delim room : ℕ) (s : Bytes)
    → tokenize delim (suc (suc room)) s ≡ stored delim room (skip delim s)
unfolding tokenize stored
round delim room s = refl

stored-name :
    (delim room c : ℕ) (w : Bytes) (ws : List Bytes)
    → (c == delim) ≡ false
    → Lacks delim w
    → stored delim room (c ∷ (w ++ path delim ws))
      ≡ (c ∷ w) ∷ tokenize delim (suc room) (path delim ws)
unfolding stored
stored-name delim room c w ws other l =
    rw (token-name delim (c ∷ w) ws (other, l), behind-name delim (c ∷ w) ws (other, l)) refl

one_name :
    (delim room : ℕ) (w : Bytes) (ws : List Bytes)
    → IsName delim w
    → tokenize delim (suc (suc room)) (path delim (w ∷ ws))
      ≡ w ∷ tokenize delim (suc room) (path delim ws)
one_name delim room [] ws (some_bytes, l) = absurd (omega arith)
one_name delim room (c ∷ w) ws (some_bytes, (other, l)) =
    round delim room (path delim ((c ∷ w) ∷ ws))
    ∙ ap (stored delim room) (skip-path delim c w ws other)
    ∙ stored-name delim room c w ws other l

last_name :
    (delim : ℕ) (w : Bytes) (ws : List Bytes)
    → IsName delim w
    → tokenize delim 1 (path delim (w ∷ ws)) ≡ (w ++ path delim ws) ∷ []
unfolding tokenize
last_name delim [] ws (some_bytes, l) = absurd (omega arith)
last_name delim (c ∷ w) ws (some_bytes, (other, l)) = rw (skip-path delim c w ws other, tokenize)

no_names : (delim room : ℕ) → tokenize delim room [] ≡ []
unfolding tokenize skip
no_names delim zero = refl
no_names delim (suc zero) = refl
no_names delim (suc (suc room)) = refl

overflow :
    (delim : ℕ) (ws : List Bytes) (w : Bytes) (more : List Bytes)
    → AllNames delim ws
    → IsName delim w
    → tokenize delim (suc (length ws)) (path delim (ws ++ w ∷ more))
      ≡ ws ++ ((w ++ path delim more) ∷ [])
overflow delim [] w more names name = last_name delim w more name
overflow delim (v ∷ ws) w more (first, names) name =
    one_name delim (length ws) v (ws ++ w ∷ more) first
    ∙ ap (λ (t : List Bytes). v ∷ t) (overflow delim ws w more names name)

enough :
    (delim room : ℕ) (ws : List Bytes)
    → AllNames delim ws
    → length ws ≤ room
    → tokenize delim room (path delim ws) ≡ ws
enough delim room [] names h = no_names delim room
enough delim zero (w ∷ ws) names h = absurd (omega arith)
enough delim (suc zero) (w ∷ []) (name, names) h =
    last_name delim w [] name ∙ ap (λ (t : Bytes). t ∷ []) (append-nil w)
enough delim (suc zero) (w ∷ v ∷ ws) names h = absurd (omega arith)
enough delim (suc (suc room)) (w ∷ ws) (name, names) h =
    one_name delim room w ws name
    ∙ ap (λ (t : List Bytes). w ∷ t) (enough delim (suc room) ws names (omega arith))

-- A path of names, each behind a delimiter, is split into these names where there is room for all.
-- With fewer places, the last one takes the rest of the path whole, delimiters and all.
pub tokenize-path :
    (delim : ℕ) (ws : List Bytes)
    → AllNames delim ws
    → ((room : ℕ) → length ws ≤ room → tokenize delim room (path delim ws) ≡ ws)
      × ((w : Bytes) (more : List Bytes)
          → IsName delim w
          → tokenize delim (suc (length ws)) (path delim (ws ++ w ∷ more))
            ≡ ws ++ ((w ++ path delim more) ∷ []))
tokenize-path delim ws names =
    (λ room h. enough delim room ws names h, λ w more name. overflow delim ws w more names name)
