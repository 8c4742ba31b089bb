-- ===== src/Client/Dirs.antt =====
-- How `mixp_create` of libmixp/client.c splits a path into a directory and a name.
use libmixp.Base.{
  ℕ, zero, suc, ◌≡◌, refl, ap, ◌∙◌, Option, none, some, [], ◌∷◌, ◌++◌, Bytes, replicate,
}
use libmixp.Compound.{Qid}
use libmixp.Fcall.{Fcall}
use libmixp.Tokenizer.Paths.{Lacks}
use libmixp.Client.{Pool}
use libmixp.Client.Files.{
  stripped, last_slash, Split, faults, bad_path, split, split_last, split_path, walk, create_walked,
  create_in, mixp_create,
}

abbrev pub slashes : ℕ → Bytes
slashes n = replicate n b'/'

stripped-slashes : (n : ℕ) → stripped (slashes n) ≡ []
unfolding stripped
stripped-slashes zero = refl
stripped-slashes (suc n) = rw (stripped-slashes n, stripped) refl

stripped-name :
    (n c : ℕ) (name : Bytes) → Lacks b'/' (c ∷ name) → stripped ((c ∷ name) ++ slashes n) ≡ c ∷ name
unfolding stripped
stripped-name n c [] (other, l) = rw (stripped, stripped-slashes n, other) refl
stripped-name n c (d ∷ name) (other, l) = rw (stripped, stripped-name n d name l) refl

stripped-append :
    (xs ys : Bytes) (e : ℕ) (rest : Bytes)
    → stripped ys ≡ e ∷ rest
    → stripped (xs ++ ys) ≡ xs ++ e ∷ rest
unfolding stripped
stripped-append [] ys e rest h = h
stripped-append (x ∷ []) ys e rest h = rw h refl
stripped-append (x ∷ y ∷ xs) ys e rest h = rw (stripped-append (y ∷ xs) ys e rest h) refl

last_slash-name : (name : Bytes) → Lacks b'/' name → last_slash name ≡ none
unfolding last_slash
last_slash-name [] l = refl
last_slash-name (c ∷ name) (other, l) = rw (last_slash-name name l, other) refl

last_slash-append :
    (dir name : Bytes) → Lacks b'/' name → last_slash (dir ++ b'/' ∷ name) ≡ some (dir, name)
unfolding last_slash
last_slash-append [] name l = rw (last_slash-name name l) refl
last_slash-append (c ∷ dir) name l = rw (last_slash-append dir name l) refl

unstripped : Bytes → Split
unstripped s = elim s [ [] ↦ faults | c ∷ rest ↦ split_last (last_slash (c ∷ rest)) ]

split_stripped : (path : Bytes) → split_path path ≡ unstripped (stripped path)
unfolding split_path unstripped
split_stripped path = refl

unstripped-dir :
    (dir name : Bytes) → Lacks b'/' name → unstripped (dir ++ b'/' ∷ name) ≡ split dir name
unfolding unstripped split_last
unstripped-dir [] name l = rw (last_slash-append [] name l) refl
unstripped-dir (c ∷ dir) name l = rw (last_slash-append (c ∷ dir) name l) refl

unstripped-name : (c : ℕ) (name : Bytes) → Lacks b'/' (c ∷ name) → unstripped (c ∷ name) ≡ bad_path
unfolding unstripped split_last
unstripped-name c name l = rw (last_slash-name (c ∷ name) l) refl

split_dir :
    (dir : Bytes) (c : ℕ) (name : Bytes) (n : ℕ)
    → Lacks b'/' (c ∷ name)
    → split_path (dir ++ b'/' ∷ ((c ∷ name) ++ slashes n)) ≡ split dir (c ∷ name)
unfolding stripped
split_dir dir c name n l =
    split_stripped (dir ++ b'/' ∷ ((c ∷ name) ++ slashes n))
    ∙ ap unstripped (
        stripped-append dir (b'/' ∷ ((c ∷ name) ++ slashes n)) b'/' (c ∷ name)
          (stripped-append (b'/' ∷ []) ((c ∷ name) ++ slashes n) c name (stripped-name n c name l)))
    ∙ unstripped-dir dir (c ∷ name) l

split_name :
    (c : ℕ) (name : Bytes) (n : ℕ)
    → Lacks b'/' (c ∷ name)
    → split_path ((c ∷ name) ++ slashes n) ≡ bad_path
split_name c name n l =
    split_stripped ((c ∷ name) ++ slashes n)
    ∙ ap unstripped (stripped-name n c name l)
    ∙ unstripped-name c name l

split_slashes : (n : ℕ) → split_path (slashes n) ≡ faults
unfolding unstripped
split_slashes n = split_stripped (slashes n) ∙ ap unstripped (stripped-slashes n)

module _ {ℓ} {S : Type ℓ} (muxrpc : S → Fcall → S × Option Fcall) (stray : ℕ → Qid) (c : Pool)
    (s : S) (perm mode : ℕ) where
  -- A create on a directory, a slash, a name that is not empty and has no slash, and any number of
  -- slashes behind it walks to the directory and creates that name there. On a path with no slash but at
  -- its end, and on one of slashes only or with no byte, it faults without a call.
  pub mixp_create-split :
      ((dir : Bytes) (b : ℕ) (name : Bytes) (n : ℕ)
        → Lacks b'/' (b ∷ name)
        → mixp_create muxrpc stray c s (dir ++ b'/' ∷ ((b ∷ name) ++ slashes n)) perm mode
          ≡ create_walked muxrpc stray (b ∷ name) perm mode (walk muxrpc stray c s dir))
      × ((b : ℕ) (name : Bytes) (n : ℕ)
          → Lacks b'/' (b ∷ name)
          → mixp_create muxrpc stray c s ((b ∷ name) ++ slashes n) perm mode ≡ none)
      × ((n : ℕ) → mixp_create muxrpc stray c s (slashes n) perm mode ≡ none)
  unfolding mixp_create create_in
  mixp_create-split = (
    λ dir b name n l. ap (create_in muxrpc stray c s perm mode) (split_dir dir b name n l),
    λ b name n l. ap (create_in muxrpc stray c s perm mode) (split_name b name n l),
    λ n. ap (create_in muxrpc stray c s perm mode) (split_slashes n),
  )
