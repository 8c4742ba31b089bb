-- ===== src/Compound/Heap.antt =====
-- The two loops of `mixp_pstrings` in libmixp/convert.c agree on the size of the names.
use libmixp.Base.{
  ℕ, zero, suc, ◌+◌, ◌≤◌, ◌≡◌, some, List, inl, inr, Bool-cases, ltb, ltb→le, set, read_at, arith,
}
use libmixp.Convert.{Message, advance, pu16_load}
use libmixp.Compound.{Str, scan_strings, fill_strings}

fill-scan :
    (n i : ℕ) (m m' : Message) (ss : List Str) (total used size : ℕ)
    → m.pos ≤ m.end
    → scan_strings n m total ≡ (m', some size)
    → ((fill_strings n i m ss used).0 ≡ m')
      × ((fill_strings n i m ss used).2 + total ≡ used + size + n)
      × (m'.pos ≤ m'.end)
unfolding scan_strings fill_strings
fill-scan zero i m m' ss total used size inside h = ground arith
fill-scan (suc n) i m m' ss total used size inside h =
    let m1 = (pu16_load m).0 in
    let len = (pu16_load m).1 in
    let m2 = advance m1 len in
    elim (Bool-cases (ltb m2.end m2.pos)) [
      | inl over ↦ absurd (cc (rw (over, scan_strings) at h))
      | inr within ↦
          let (e, sum, bound) =
            fill-scan n (suc i) m2 m' (set ss i (some (read_at m1.buf m1.pos len))) (total + len)
              (used + len + 1) size (ltb→le m2.end m2.pos within)
              (rw (within, scan_strings) at h) in
          (e, omega arith, bound)
    ]

-- When the first loop gets through, the block of `size + num` bytes that the code then asks of
-- `malloc` is filled by the second loop to its last byte and no further, and both loops end at the
-- same cursor, which is not past the end of the message.
pub fill_strings-scan_strings :
    (num : ℕ) (m m' : Message) (strings : List Str) (size : ℕ)
    → m.pos ≤ m.end
    → scan_strings num m 0 ≡ (m', some size)
    → ((fill_strings num 0 m strings 0).2 ≡ size + num)
      × ((fill_strings num 0 m strings 0).0 ≡ m')
      × (m'.pos ≤ m'.end)
fill_strings-scan_strings num m m' strings size inside h =
    let (e, sum, bound) = fill-scan num 0 m m' strings 0 0 size inside h in (omega arith, e, bound)
