-- ===== src/Examples/Words.antt =====
-- `ixp_tokenize` of libmixp/util.c on two short paths.
use libmixp.Base.{ℕ, suc, ◌≤◌, ◌≡◌, refl, List, [], ◌∷◌, ◌++◌, Bytes, length, arith}
use libmixp.Tokenizer.{skip, token, behind, tokenize}
use libmixp.Tokenizer.Paths.{IsName, path, tokenize-path}

abbrev slash : ℕ
slash = 47

abbrev tag : List Bytes
tag = (b't' ∷ b'a' ∷ b'g' ∷ []) ∷ (b'1' ∷ []) ∷ []

tokenize-path_example :
    ((room : ℕ) → length tag ≤ room → tokenize slash room (path slash tag) ≡ tag)
    × ((w : Bytes) (more : List Bytes)
        → IsName slash w
        → tokenize slash (suc (length tag)) (path slash (tag ++ w ∷ more))
          ≡ tag ++ ((w ++ path slash more) ∷ []))
tokenize-path_example =
    tokenize-path slash tag
      ((omega arith, (refl, (refl, (refl, tt)))), ((omega arith, (refl, tt)), tt))

-- "//a/" with room for two, and for one.
doubled_slash : tokenize slash 2 (slash ∷ slash ∷ b'a' ∷ slash ∷ []) ≡ (b'a' ∷ []) ∷ []
unfolding tokenize skip token behind
doubled_slash = refl

no_room_left : tokenize slash 1 (slash ∷ slash ∷ b'a' ∷ slash ∷ []) ≡ (b'a' ∷ slash ∷ []) ∷ []
unfolding tokenize skip
no_room_left = refl
