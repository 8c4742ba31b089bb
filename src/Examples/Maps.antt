-- ===== src/Examples/Maps.antt =====
-- libmixp/intmap.c on small tables.
use libmixp.Base.{ℕ, ◌≡◌, ◌↔◌, refl, true, false, ◌&&◌, ◌==◌, if◌then◌else◌, some, none, arith}
use libmixp.Intmap.{
  Intmap, bucket, init, find, lookupkey, caninsertkey, update_loop, insertkey, delete_loop,
  delete_chain, deletekey,
}
use libmixp.Intmap.Refines.{IsPlaced, init-IsPlaced, caninsertkey-lookupkey}
use libmixp.Intmap.Insert.{in_front, insertkey-lookupkey}
use libmixp.Intmap.Delete.{in_reach, deletekey-lookupkey}

abbrev one : Intmap ℕ
one = (caninsertkey (init 3) 1 10).0

-- 4 stands before 1 in the same bucket.
abbrev two : Intmap ℕ
two = (caninsertkey one 4 40).0

one-IsPlaced : IsPlaced one
one-IsPlaced = (caninsertkey-lookupkey {V = ℕ} (init 3) (init-IsPlaced 3 (omega arith)) 1 10).2

two-IsPlaced : IsPlaced two
two-IsPlaced = (caninsertkey-lookupkey one one-IsPlaced 4 40).2

caninsertkey-lookupkey_example :
    (((caninsertkey one 4 40).1 ≡ true) ↔ (lookupkey one 4 ≡ none))
    × ((q : ℕ)
        → lookupkey (caninsertkey one 4 40).0 q
          ≡ (if (caninsertkey one 4 40).1 && (q == 4) then some 40 else lookupkey one q))
    × IsPlaced (caninsertkey one 4 40).0
caninsertkey-lookupkey_example = caninsertkey-lookupkey one one-IsPlaced 4 40

insertkey-lookupkey_example :
    (in_front 4 (bucket two 4) ≡ true
      → (after : Intmap ℕ) × (insertkey 1 two 4 41 ≡ some (after, lookupkey two 4))
        × ((q : ℕ) → lookupkey after q ≡ (if q == 4 then some 41 else lookupkey two q))
        × IsPlaced after)
    × (in_front 4 (bucket two 4) ≡ false → insertkey 0 two 4 41 ≡ none)
insertkey-lookupkey_example = insertkey-lookupkey two two-IsPlaced 4 41 0

deletekey-lookupkey_example :
    (in_reach 1 (bucket two 1) ≡ true
      → (after : Intmap ℕ) × (deletekey 2 two 1 ≡ some (after, lookupkey two 1))
        × ((q : ℕ) → lookupkey after q ≡ (if q == 1 then none else lookupkey two q))
        × IsPlaced after)
    × (in_reach 1 (bucket two 1) ≡ false → deletekey 0 two 1 ≡ none)
deletekey-lookupkey_example = deletekey-lookupkey two two-IsPlaced 1 0

reached : in_reach 1 (bucket two 1) ≡ true
unfolding init caninsertkey find
reached = refl

updated_in_front : in_front 4 (bucket two 4) ≡ true
unfolding init caninsertkey find
updated_in_front = refl

-- The key at the back of the bucket is never reached by an insertion.
stuck_insertion : insertkey 100 two 1 11 ≡ none
unfolding init caninsertkey find insertkey update_loop
stuck_insertion = refl

deleted : (after : Intmap ℕ) × (deletekey 2 two 1 ≡ some (after, some 10))
unfolding init caninsertkey find deletekey delete_chain delete_loop
deleted = (_, refl)
