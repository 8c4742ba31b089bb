-- ===== src/Intmap.antt =====
-- libmixp/intmap.c: a hash table from ids to pointers with chained buckets. A bucket is the list of its
-- elements from `hash[i]` on; the NULL that a search returns is `none`. The lock around each operation
-- makes it one step. A loop that does not advance is given rounds, and `none` is a loop that is still
-- running when they are used up.
pub mod Refines
pub mod Insert
pub mod Delete
use libmixp.Base.{
  ℕ, zero, suc, ◌%◌, Bool, true, false, Option, none, some, List, [], ◌∷◌, ◌++◌, get_or, set,
  replicate, ◌==◌, if◌then◌else◌,
}
use mathlib.Core.Option

pub record Intlist {ℓ} (V : Type ℓ) : Type ℓ where
  pub id : ℕ
  pub aux : V

pub record Intmap {ℓ} (V : Type ℓ) : Type ℓ where
  pub nhash : ℕ
  pub hash : List (List (Intlist V))

module _ {ℓ} {V : Type ℓ} where
  abbrev pub hashid : Intmap V → ℕ → ℕ
  hashid map id = id % map.nhash

  -- `map->hash[hashid(map, id)]`
  abbrev pub bucket : Intmap V → ℕ → List (Intlist V)
  bucket map id = get_or map.hash (hashid map id) []

  abbrev pub set_bucket : Intmap V → ℕ → List (Intlist V) → Intmap V
  set_bucket map id chain = record map { hash = set map.hash (hashid map id) chain }

  unfoldable pub init : ℕ → Intmap V
  init nhash = record { nhash = nhash; hash = replicate nhash [] }

  unfoldable pub find : ℕ → List (Intlist V) → Option V
  find id [] = none
  find id (elem ∷ link) = if elem.id == id then some elem.aux else find id link

  unfoldable pub lookupkey : Intmap V → ℕ → Option V
  lookupkey map id = find id (bucket map id)

  -- The `while` of `__real_insertkey` does not advance: it ends at once or never.
  unfoldable pub update_loop : ℕ → ℕ → V → List (Intlist V) → Option (List (Intlist V) × Option V)
  update_loop zero id value chain = none
  update_loop (suc rounds) id value [] = some (record { id = id; aux = value } ∷ [], none)
  update_loop (suc rounds) id value (elem ∷ link) =
      let again = update_loop rounds id value (elem ∷ link) in
      if elem.id == id then some (record elem { aux = value } ∷ link, some elem.aux) else again

  -- The new map, and the value that the key had.
  unfoldable pub insertkey : ℕ → Intmap V → ℕ → V → Option (Intmap V × Option V)
  insertkey rounds map id value =
      Option.map (λ r. (set_bucket map id r.0, r.1)) (update_loop rounds id value (bucket map id))

  -- Whether the key was free, and so has been inserted.
  unfoldable pub caninsertkey : Intmap V → ℕ → V → Intmap V × Bool
  caninsertkey map id value = elim (find id (bucket map id)) [
    | some _ ↦ (map, false)
    | none ↦ (set_bucket map id (record { id = id; aux = value } ∷ bucket map id), true)
  ]

  -- The `while` of `__real_deletekey`, behind an element that stays. `elem` never moves on.
  unfoldable pub delete_loop :
      ℕ → ℕ → Intlist V → List (Intlist V) → Option V → Option (List (Intlist V) × Option V)
  delete_loop zero id elem link ov = none
  delete_loop (suc rounds) id elem [] ov = some (elem ∷ [], ov)
  delete_loop (suc rounds) id elem (next ∷ link) ov =
      let unlinked = delete_loop rounds id elem link (some next.aux) in
      let again = delete_loop rounds id elem (next ∷ link) ov in
      if next.id == id then unlinked else again

  unfoldable pub delete_chain : ℕ → ℕ → List (Intlist V) → Option (List (Intlist V) × Option V)
  delete_chain rounds id [] = some ([], none)
  delete_chain rounds id (elem ∷ link) =
      let later = delete_loop rounds id elem link none in
      if elem.id == id then some (link, some elem.aux) else later

  unfoldable pub deletekey : ℕ → Intmap V → ℕ → Option (Intmap V × Option V)
  deletekey rounds map id =
      Option.map (λ r. (set_bucket map id r.0, r.1)) (delete_chain rounds id (bucket map id))

  -- The values that `mixp_intmap_exec` and `mixp_intmap_free` visit, in their order, if what they run
  -- on a value unlinks no other element.
  unfoldable pub visit_chain {κ} : {S : Type κ} → (S → V → S) → S → List (Intlist V) → S
  visit_chain run s [] = s
  visit_chain run s (elem ∷ link) = visit_chain run (run s elem.aux) link

  unfoldable pub visit {κ} : {S : Type κ} → (S → V → S) → S → List (List (Intlist V)) → S
  visit run s [] = s
  visit run s (chain ∷ rest) = visit run (visit_chain run s chain) rest

  unfoldable pub exec {κ} : {S : Type κ} → Intmap V → (S → V → S) → S → S
  exec map run s = visit run s map.hash
