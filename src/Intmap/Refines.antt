-- ===== src/Intmap/Refines.antt =====
-- The table of libmixp/intmap.c as a function from ids to values: lookups and insertions.
use libmixp.Base.{
  ℕ, ◌%◌, ◌<◌, ◌≡◌, ◌↔◌, ◌≢◌, refl, sym, ap, ◌∙◌, true, false, ◌&&◌, none, some, List, [], ◌∷◌, inl,
  inr, Option-cases, length, length-set, length-replicate, get_or, get_or-set, get_or-replicate,
  if_elim, ==→eq, ◌==◌, if◌then◌else◌, arith,
}
use mathlib.Core.Bool.{false≢true}
use libmixp.Intmap.{Intlist, Intmap, bucket, set_bucket, init, find, lookupkey, caninsertkey}

module _ {V : Type 0} where
  -- No id stands twice in a chain.
  abbrev pub IsUnique : List (Intlist V) → Type 0
  IsUnique [] = Unit
  IsUnique (elem ∷ link) = (find elem.id link ≡ none) × IsUnique link

  -- There are `nhash` buckets, and at least one; every id stands in its own bucket, at most once.
  pub record IsPlaced (map : Intmap V) : Type 0 where
    pub positive : 0 < map.nhash
    pub width : length map.hash ≡ map.nhash
    pub unique : (i : ℕ) → IsUnique (get_or map.hash i [])
    pub home : (i id : ℕ) → find id (get_or map.hash i []) ≢ none → id % map.nhash ≡ i

  pub init-IsPlaced : (nhash : ℕ) → 0 < nhash → IsPlaced (init nhash)
  unfolding init find
  init-IsPlaced nhash h = record {
    positive = h;
    width = length-replicate nhash [];
    unique = λ i. rw (get_or-replicate {A = List (Intlist V)} nhash i []) tt;
    home = λ i id ne. absurd (ne (rw (get_or-replicate {A = List (Intlist V)} nhash i [])));
  }

  module _ (map : Intmap V) (p : IsPlaced map) (id : ℕ) where
    -- A write to the bucket of `id`, read at any id.
    pub lookupkey-set_bucket :
        (chain : List (Intlist V)) (q : ℕ)
        → lookupkey (set_bucket map id chain) q
          ≡ (if id % map.nhash == q % map.nhash then find q chain else lookupkey map q)
    unfolding lookupkey
    lookupkey-set_bucket chain q =
        rw (get_or-set map.hash (id % map.nhash) (q % map.nhash) chain [] in_range) (ground arith)
      where
        in_range : id % map.nhash < length map.hash
        in_range = omega (arith, p.width, p.positive)

    pub set_bucket-IsPlaced :
        (chain : List (Intlist V))
        → IsUnique chain
        → ((q : ℕ) → find q chain ≢ none → q % map.nhash ≡ id % map.nhash)
        → IsPlaced (set_bucket map id chain)
    set_bucket-IsPlaced chain u here =
        let in_range : id % map.nhash < length map.hash = omega (arith, p.width, p.positive) in
        let at = λ (i : ℕ). get_or-set map.hash (id % map.nhash) i chain [] in_range in
        record {
          positive = p.positive;
          width = length-set map.hash (id % map.nhash) chain ∙ p.width;
          unique = λ i. rw (at i) (
              if_elim IsUnique (id % map.nhash == i) chain (get_or map.hash i []) (λ _. u)
                (λ _. p.unique i));
          home = λ i q ne.
              if_elim (λ c. find q c ≢ none → q % map.nhash ≡ i) (id % map.nhash == i) chain
                (get_or map.hash i []) (λ e n. here q n ∙ ==→eq _ _ e) (λ _. p.home i q)
                (rw (at i) at ne);
        }

    pub taken :
        (value old : V) → lookupkey map id ≡ some old → caninsertkey map id value ≡ (map, false)
    unfolding caninsertkey lookupkey
    taken value old e = rw (e, caninsertkey)

    abbrev pub inserted : V → Intmap V
    inserted value = set_bucket map id (record { id = id; aux = value } ∷ bucket map id)

    pub free :
        (value : V) → lookupkey map id ≡ none → caninsertkey map id value ≡ (inserted value, true)
    unfolding caninsertkey lookupkey
    free value e = rw (e, caninsertkey)

    pub lookupkey-inserted :
        (value : V) (q : ℕ)
        → lookupkey (inserted value) q ≡ (if q == id then some value else lookupkey map q)
    lookupkey-inserted value q =
        lookupkey-set_bucket (record { id = id; aux = value } ∷ bucket map id) q
        ∙ unfold lookupkey find in ground arith

    pub inserted-IsPlaced : (value : V) → lookupkey map id ≡ none → IsPlaced (inserted value)
    unfolding lookupkey find
    inserted-IsPlaced value e =
        set_bucket-IsPlaced (record { id = id; aux = value } ∷ bucket map id)
          (e, p.unique (id % map.nhash))
          (λ q ne.
            if_elim (λ o. o ≢ none → q % map.nhash ≡ id % map.nhash) (id == q) (some value)
              (find q (bucket map id))
              (λ same _. ap (λ (k : ℕ). k % map.nhash) (sym (==→eq _ _ same)))
              (λ _. p.home (id % map.nhash) q) ne)

    -- An insertion succeeds exactly if the id is free. It then adds the value under this id; otherwise,
    -- and at every other id, the map reads as before.
    pub caninsertkey-lookupkey :
        (value : V)
        → (((caninsertkey map id value).1 ≡ true) ↔ (lookupkey map id ≡ none))
          × ((q : ℕ)
              → lookupkey (caninsertkey map id value).0 q ≡ (
                  if (caninsertkey map id value).1 && (q == id)
                  then some value
                  else lookupkey map q))
          × IsPlaced (caninsertkey map id value).0
    caninsertkey-lookupkey value = elim (Option-cases (lookupkey map id)) [
      | inl e ↦
          rw (free value e)
            ((λ _. e, λ _. refl), λ q. lookupkey-inserted value q, inserted-IsPlaced value e)
      | inr (old, e) ↦ rw (taken value old e) ((λ f. absurd (false≢true f), λ n. cc), λ q. refl, p)
    ]
