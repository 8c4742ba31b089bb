-- ===== src/Intmap/Insert.antt =====
-- `mixp_intmap_insertkey` of libmixp/intmap.c: when it returns, and what it leaves then.
use libmixp.Base.{
  ℕ, zero, suc, ◌%◌, ◌≡◌, ◌≢◌, ◌∙◌, refl, ap, Bool, true, false, none, some, List, [], ◌∷◌, if_elim,
  ==→eq, ◌==◌, if◌then◌else◌, arith, inl, inr, Bool-cases,
}
use libmixp.Intmap.{Intlist, Intmap, bucket, set_bucket, find, lookupkey, update_loop, insertkey}
use libmixp.Intmap.Refines.{IsUnique, IsPlaced, lookupkey-set_bucket, set_bucket-IsPlaced}

module _ {V : Type 0} where
  -- The bucket is empty, or the id is at its front.
  abbrev pub in_front : ℕ → List (Intlist V) → Bool
  in_front id [] = true
  in_front id (elem ∷ link) = elem.id == id

  with_value : ℕ → V → List (Intlist V) → List (Intlist V)
  with_value id value [] = record { id = id; aux = value } ∷ []
  with_value id value (elem ∷ link) = record elem { aux = value } ∷ link

  update_returns :
      (rounds id : ℕ) (value : V) (chain : List (Intlist V))
      → in_front id chain ≡ true
      → update_loop (suc rounds) id value chain ≡ some (with_value id value chain, find id chain)
  unfolding update_loop with_value find
  update_returns rounds id value [] h = refl
  update_returns rounds id value (elem ∷ link) h = rw h

  update_hangs :
      (rounds id : ℕ) (value : V) (chain : List (Intlist V))
      → in_front id chain ≡ false
      → update_loop rounds id value chain ≡ none
  unfolding update_loop
  update_hangs zero id value chain h = refl
  update_hangs (suc rounds) id value [] h = cc
  update_hangs (suc rounds) id value (elem ∷ link) h =
      rw (h, update_hangs rounds id value (elem ∷ link) h)

  find-with_value :
      (id q : ℕ) (value : V) (chain : List (Intlist V))
      → in_front id chain ≡ true
      → find q (with_value id value chain) ≡ (if q == id then some value else find q chain)
  unfolding find with_value
  find-with_value id q value [] h = ground arith
  find-with_value id q value (elem ∷ link) h = ground arith

  with_value-IsUnique :
      (id : ℕ) (value : V) (chain : List (Intlist V))
      → IsUnique chain
      → IsUnique (with_value id value chain)
  unfolding find with_value
  with_value-IsUnique id value [] u = (refl, tt)
  with_value-IsUnique id value (elem ∷ link) u = u

  module _ (map : Intmap V) (p : IsPlaced map) (id : ℕ) (value : V) where
    lookupkey-with_value :
        (q : ℕ)
        → in_front id (bucket map id) ≡ true
        → lookupkey (set_bucket map id (with_value id value (bucket map id))) q
          ≡ (if q == id then some value else lookupkey map q)
    lookupkey-with_value q h =
        lookupkey-set_bucket map p id (with_value id value (bucket map id)) q
        ∙ unfold lookupkey in
          rw (find-with_value id q value (bucket map id) h)
            (elim (Bool-cases (id % map.nhash == q % map.nhash)) [
              | inl same ↦ rw (same, ==→eq (id % map.nhash) (q % map.nhash) same) refl
              | inr other ↦ ground arith
            ])

    with_value-home :
        in_front id (bucket map id) ≡ true
        → (q : ℕ) → find q (with_value id value (bucket map id)) ≢ none
        → q % map.nhash ≡ id % map.nhash
    with_value-home h q ne =
        if_elim (λ o. o ≢ none → q % map.nhash ≡ id % map.nhash) (q == id) (some value)
          (find q (bucket map id)) (λ same _. ap (λ (k : ℕ). k % map.nhash) (==→eq _ _ same))
          (λ _. p.home (id % map.nhash) q) (rw (find-with_value id q value (bucket map id) h) at ne)

    -- `mixp_intmap_insertkey` returns exactly if the bucket of the id is empty or has the id at its
    -- front, and then at once: it gives the value that the id had, the id has the new value, and every
    -- other id reads as before. With any other bucket its loop runs for ever.
    pub insertkey-lookupkey :
        (rounds : ℕ)
        → (in_front id (bucket map id) ≡ true
            → (after : Intmap V) × (insertkey (suc rounds) map id value
                ≡ some (after, lookupkey map id))
              × ((q : ℕ) → lookupkey after q ≡ (if q == id then some value else lookupkey map q))
              × IsPlaced after)
          × (in_front id (bucket map id) ≡ false → insertkey rounds map id value ≡ none)
    unfolding insertkey lookupkey
    insertkey-lookupkey rounds = (
      λ h. (
        set_bucket map id (with_value id value (bucket map id)),
        rw (update_returns rounds id value (bucket map id) h),
        λ q. lookupkey-with_value q h,
        set_bucket-IsPlaced map p id (with_value id value (bucket map id))
            (with_value-IsUnique id value (bucket map id) (p.unique (id % map.nhash)))
            (with_value-home h),
      ),
      λ h. rw (update_hangs rounds id value (bucket map id) h),
    )
