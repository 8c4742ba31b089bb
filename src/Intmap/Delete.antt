-- ===== src/Intmap/Delete.antt =====
-- `mixp_intmap_deletekey` of libmixp/intmap.c: when it returns, and what it leaves then.
use libmixp.Base.{
  ℕ, zero, suc, ◌%◌, ◌≡◌, ◌≢◌, ◌∙◌, refl, Bool, true, false, ◌||◌, Option, none, some, List, [],
  ◌∷◌, inl, inr, Bool-cases, if_elim, ==→eq, ==_refl, ◌==◌, if◌then◌else◌, arith,
}
use libmixp.Intmap.{
  Intlist, Intmap, bucket, set_bucket, find, lookupkey, delete_loop, delete_chain, deletekey,
}
use libmixp.Intmap.Refines.{IsUnique, IsPlaced, lookupkey-set_bucket, set_bucket-IsPlaced}

module _ {V : Type 0} where
  -- The id is at the front of its chain, or it is second of two, or there is nothing else to pass.
  abbrev pub in_reach : ℕ → List (Intlist V) → Bool
  in_reach id [] = true
  in_reach id (elem ∷ []) = true
  in_reach id (elem ∷ next ∷ []) = elem.id == id || next.id == id
  in_reach id (elem ∷ next ∷ more ∷ link) = elem.id == id

  pub front-in_reach :
      (id : ℕ) (elem : Intlist V) (link : List (Intlist V))
      → elem.id ≡ id
      → in_reach id (elem ∷ link) ≡ true
  front-in_reach id elem [] e = refl
  front-in_reach id elem (next ∷ []) e = rw (e, ==_refl id)
  front-in_reach id elem (next ∷ more ∷ link) e = rw (e, ==_refl id)

  without : ℕ → List (Intlist V) → List (Intlist V)
  without id [] = []
  without id (elem ∷ link) = if elem.id == id then link else elem ∷ without id link

  find-without :
      (id q : ℕ) (chain : List (Intlist V))
      → IsUnique chain
      → find q (without id chain) ≡ (if q == id then none else find q chain)
  unfolding find without
  find-without id q [] u = ground arith
  find-without id q (elem ∷ link) (absent, u) = ground (arith, find-without id q link u)

  without-IsUnique :
      (id : ℕ) (chain : List (Intlist V)) → IsUnique chain → IsUnique (without id chain)
  unfolding without
  without-IsUnique id [] u = tt
  without-IsUnique id (elem ∷ link) (absent, u) =
      if_elim IsUnique (elem.id == id) link (elem ∷ without id link) (λ _. u)
        (λ other. (rw (find-without id elem.id link u, other) absent, without-IsUnique id link u))

  -- A second element with another id is never passed.
  stuck :
      (rounds id : ℕ) (elem next : Intlist V) (link : List (Intlist V)) (ov : Option V)
      → (next.id == id) ≡ false
      → delete_loop rounds id elem (next ∷ link) ov ≡ none
  unfolding delete_loop
  stuck zero id elem next link ov other = refl
  stuck (suc rounds) id elem next link ov other =
      rw (other, stuck rounds id elem next link ov other)

  -- Behind a second element with the id the loop meets the third.
  passed :
      (rounds id : ℕ) (elem next more : Intlist V) (link : List (Intlist V)) (ov : Option V)
      → (next.id == id) ≡ true
      → (more.id == id) ≡ false
      → delete_loop rounds id elem (next ∷ more ∷ link) ov ≡ none
  unfolding delete_loop
  passed zero id elem next more link ov same other = refl
  passed (suc rounds) id elem next more link ov same other =
      rw (same, stuck rounds id elem more link (some next.aux) other)

  apart :
      (id : ℕ) (next more : Intlist V) (link : List (Intlist V))
      → find next.id (more ∷ link) ≡ none
      → (next.id == id) ≡ true
      → (more.id == id) ≡ false
  unfolding find
  apart id next more link absent same = ground arith

  returns :
      (rounds id : ℕ) (chain : List (Intlist V))
      → in_reach id chain ≡ true
      → delete_chain (suc (suc rounds)) id chain ≡ some (without id chain, find id chain)
  unfolding delete_chain delete_loop find without
  returns rounds id [] h = refl
  returns rounds id (elem ∷ []) h = ground arith
  returns rounds id (elem ∷ next ∷ []) h = ground arith
  returns rounds id (elem ∷ next ∷ more ∷ link) h = rw h

  hangs :
      (rounds id : ℕ) (chain : List (Intlist V))
      → IsUnique chain
      → in_reach id chain ≡ false
      → delete_chain rounds id chain ≡ none
  unfolding delete_chain
  hangs rounds id [] u h = cc
  hangs rounds id (elem ∷ []) u h = cc
  hangs rounds id (elem ∷ next ∷ []) u h = ground (arith, stuck rounds id elem next [] none)
  hangs rounds id (elem ∷ next ∷ more ∷ link) u h = rw h (elim (Bool-cases (next.id == id)) [
    | inl same ↦ passed rounds id elem next more link none same (apart id next more link u.1.0 same)
    | inr other ↦ stuck rounds id elem next (more ∷ link) none other
  ])

  module _ (map : Intmap V) (p : IsPlaced map) (id : ℕ) where
    lookupkey-without :
        (q : ℕ)
        → lookupkey (set_bucket map id (without id (bucket map id))) q
          ≡ (if q == id then none else lookupkey map q)
    lookupkey-without q =
        lookupkey-set_bucket map p id (without id (bucket map id)) q
        ∙ unfold lookupkey in
          rw (find-without id q (bucket map id) (p.unique (id % map.nhash)))
            (elim (Bool-cases (id % map.nhash == q % map.nhash)) [
              | inl same ↦ rw (same, ==→eq (id % map.nhash) (q % map.nhash) same) refl
              | inr other ↦ ground arith
            ])

    without-home :
        (q : ℕ) → find q (without id (bucket map id)) ≢ none → q % map.nhash ≡ id % map.nhash
    without-home q ne =
        if_elim (λ o. o ≢ none → q % map.nhash ≡ id % map.nhash) (q == id) none
          (find q (bucket map id)) (λ _ n. absurd (n refl)) (λ _. p.home (id % map.nhash) q)
          (rw (find-without id q (bucket map id) (p.unique (id % map.nhash))) at ne)

    -- A deletion returns exactly if the id is in reach in its chain, and then two rounds of its loop are
    -- enough: it gives the value that the id had, the id is free, and every other id reads as before.
    -- With any other chain the loop runs for ever.
    pub deletekey-lookupkey :
        (rounds : ℕ)
        → (in_reach id (bucket map id) ≡ true
            → (after : Intmap V) × (deletekey (suc (suc rounds)) map id
                ≡ some (after, lookupkey map id))
              × ((q : ℕ) → lookupkey after q ≡ (if q == id then none else lookupkey map q))
              × IsPlaced after)
          × (in_reach id (bucket map id) ≡ false → deletekey rounds map id ≡ none)
    unfolding deletekey lookupkey
    deletekey-lookupkey rounds =
        let chain = bucket map id in
        let u = p.unique (id % map.nhash) in
        (
          λ h. (
            set_bucket map id (without id chain),
            rw (returns rounds id chain h),
            lookupkey-without,
            set_bucket-IsPlaced map p id (without id chain) (without-IsUnique id chain u)
                without-home,
          ),
          λ h. rw (hangs rounds id chain u h),
        )
