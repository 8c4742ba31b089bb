-- ===== src/Compound/Unpack.antt =====
-- In the mode MsgUnpack the compound routines of convert.c read back what stands at `pos`.
use libmixp.Base.{
  ℕ, zero, suc, ◌+◌, ◌≤◌, ◌≡◌, refl, none, some, List, ◌∷◌, ◌++◌, length, length-append,
  padded-length, read_at-Holds, Holds-left, get_or, set, ltb, le→leb, arith, false,
}
use libmixp.Convert.{Message, msg_unpack, advance, le16, le32, le64, pu16_load}
use libmixp.Convert.Emit.{concat}
use libmixp.Convert.Load.{
  Ready, Ready-right, pu8-unpack, pu16-unpack, pu16_load-unpack, pu32-unpack, pu64-unpack,
}
use libmixp.Compound.{
  Str, bytes_of, pstring, pdata, scan_strings, fill_strings, unpack_strings, after_scan,
  counted_strings, pstrings, Qid, zero_qid, pqid, qid_loop, counted_qids, pqids,
}
use libmixp.Compound.Chunks.{
  length16, str_chunks, names_chunks, qid_chunks, qids_chunks, IsText, AllText, IsQid, AllQid,
}
use libmixp.Base.{Bytes, read_at, ltb_le}

-- The buffer reaches as far as the message says.
abbrev pub IsBacked : Message → Type 0
IsBacked m = m.end ≤ length m.buf

pub pdata-unpack :
    (m : Message) (x : Str) (bs rest : Bytes)
    → IsBacked m
    → Ready m (bs ++ rest)
    → (pdata m x (length bs) ≡ (advance m (length bs), some bs))
      × Ready (advance m (length bs)) rest
unfolding pdata
pdata-unpack m x bs rest backed r =
    let fits : m.pos + length bs ≤ m.end = omega (arith, r.room, length-append bs rest) in
    (
      simp (
        le→leb (m.pos + length bs) m.end fits,
        r.unpacking,
        read_at-Holds m.buf m.pos bs (omega arith) (Holds-left m.buf m.pos bs rest r.holds),
      ),
      Ready-right m bs rest (length bs) refl r,
    )

length16-text : (s : Str) → IsText s → length16 s ≡ length (bytes_of s)
length16-text s t = omega (arith, t.whole, t.short)

-- Where the cursor stands behind a string.
abbrev pub past : Message → Str → Message
past m s = advance (advance m 2) (length (bytes_of s))

pub pstring-unpack :
    (m : Message) (x s : Str) (cs : List Bytes)
    → IsBacked m
    → IsText s
    → Ready m (concat (str_chunks s cs))
    → (pstring m x ≡ (past m s, s)) × Ready (past m s) (concat cs)
unfolding pstring
pstring-unpack m x s cs backed t r =
    let bs = bytes_of s in
    let counted : Ready m (le16 (length bs) ++ (bs ++ concat cs)) =
      rw (length16-text s t, padded-length bs) at r in
    let (e1, r1) = pu16-unpack m (length bs) (length16 x) (bs ++ concat cs) t.short counted in
    let (e2, r2) = pdata-unpack (advance m 2) x bs (concat cs) backed r1 in
    (rw (e1, e2) (cc (t.pointer)), r2)

pub pqid-unpack :
    (m : Message) (x q : Qid) (cs : List Bytes)
    → IsQid q
    → Ready m (concat (qid_chunks q cs))
    → (pqid m x ≡ (advance (advance (advance m 1) 4) 8, record q { dir_type = x.dir_type }))
      × Ready (advance (advance (advance m 1) 4) 8) (concat cs)
unfolding pqid
pqid-unpack m x q cs t r =
    let (e1, r1) =
      pu8-unpack m q.type x.type (le32 q.version ++ (le64 q.path ++ concat cs)) t.type r in
    let (e2, r2) =
      pu32-unpack (advance m 1) q.version x.version (le64 q.path ++ concat cs) t.version r1 in
    let (e3, r3) = pu64-unpack (advance (advance m 1) 4) q.path x.path (concat cs) t.path r2 in
    (rw (e1, e2, e3), r3)

-- The first `n` slots of an array, from `i` on, taken from another.
abbrev pub copy_names : ℕ → ℕ → List Str → List Str → List Str
copy_names zero i from onto = onto
copy_names (suc n) i from onto = copy_names n (suc i) from (set onto i (get_or from i none))

abbrev pub past_names : ℕ → ℕ → List Str → Message → Message
past_names zero i ss m = m
past_names (suc n) i ss m = past_names n (suc i) ss (past m (get_or ss i none))

-- One round of either loop of `mixp_pstrings`, over a text `s`.
record Round (m : Message) (s : Str) (rest : Bytes) : Type 0 where
  counted : pu16_load m ≡ (advance m 2, length (bytes_of s))
  content : some (read_at m.buf (m.pos + 2) (length (bytes_of s))) ≡ s
  inside : ltb m.end (m.pos + 2 + length (bytes_of s)) ≡ false
  onward : Ready (past m s) rest

round :
    (m : Message) (s : Str) (cs : List Bytes)
    → IsBacked m
    → IsText s
    → Ready m (concat (str_chunks s cs))
    → Round m s (concat cs)
round m s cs backed t r =
    let bs = bytes_of s in
    let counted : Ready m (le16 (length bs) ++ (bs ++ concat cs)) =
      rw (length16-text s t, padded-length bs) at r in
    let (e1, r1) = pu16_load-unpack m (length bs) 0 (bs ++ concat cs) t.short counted in
    let fits : m.pos + 2 + length bs ≤ m.end =
      omega (arith, r1.room, length-append bs (concat cs)) in
    record {
      counted = e1;
      content =
          rw
            (read_at-Holds m.buf (m.pos + 2) bs (omega arith)
              (Holds-left m.buf (m.pos + 2) bs (concat cs) r1.holds))
            (cc (t.pointer));
      inside = ground arith;
      onward = Ready-right (advance m 2) bs (concat cs) (length bs) refl r1;
    }

scan_strings-unpack :
    (n i : ℕ) (m : Message) (ss : List Str) (total : ℕ) (cs : List Bytes)
    → IsBacked m
    → AllText n i ss
    → Ready m (concat (names_chunks n i ss cs))
    → (k : ℕ) × (scan_strings n m total ≡ (past_names n i ss m, some k))
unfolding scan_strings
scan_strings-unpack zero i m ss total cs backed t r = (total, refl)
scan_strings-unpack (suc n) i m ss total cs backed (t, ts) r =
    let s = get_or ss i none in
    let o = round m s (names_chunks n (suc i) ss cs) backed t r in
    let (k, e) =
      scan_strings-unpack n (suc i) (past m s) ss (total + length (bytes_of s)) cs backed ts
        o.onward in
    (k, rw (o.counted, o.inside) e)

fill_strings-unpack :
    (n i : ℕ) (m : Message) (ss onto : List Str) (used : ℕ) (cs : List Bytes)
    → IsBacked m
    → AllText n i ss
    → Ready m (concat (names_chunks n i ss cs))
    → (k : ℕ) × (fill_strings n i m onto used ≡ (past_names n i ss m, copy_names n i ss onto, k))
      × Ready (past_names n i ss m) (concat cs)
unfolding fill_strings
fill_strings-unpack zero i m ss onto used cs backed t r = (used, refl, r)
fill_strings-unpack (suc n) i m ss onto used cs backed (t, ts) r =
    let s = get_or ss i none in
    let o = round m s (names_chunks n (suc i) ss cs) backed t r in
    let (k, e, onward) =
      fill_strings-unpack n (suc i) (past m s) ss (set onto i s) (used + length (bytes_of s) + 1) cs
        backed ts o.onward in
    (k, rw (o.counted, o.content) e, onward)

pub past_names-rewind :
    (n i : ℕ) (ss : List Str) (m : Message) (p : ℕ)
    → record (past_names n i ss m) { pos = p } ≡ record m { pos = p }
past_names-rewind zero i ss m p = refl
past_names-rewind (suc n) i ss m p = past_names-rewind n (suc i) ss (past m (get_or ss i none)) p

pub unpack_strings-unpack :
    (n : ℕ) (m : Message) (ss onto : List Str) (cs : List Bytes)
    → IsBacked m
    → AllText n 0 ss
    → Ready m (concat (names_chunks n 0 ss cs))
    → (unpack_strings m n onto ≡ (past_names n 0 ss m, copy_names n 0 ss onto))
      × Ready (past_names n 0 ss m) (concat cs)
unfolding unpack_strings after_scan
unpack_strings-unpack n m ss onto cs backed t r =
    let (size, e1) = scan_strings-unpack n 0 m ss 0 cs backed t r in
    let (used, e2, onward) = fill_strings-unpack n 0 m ss onto 0 cs backed t r in
    (rw (e1, past_names-rewind n 0 ss m m.pos, e2), onward)

counted_strings-unpack :
    (n : ℕ) (m : Message) (onto : List Str)
    → n ≤ 16
    → m.mode ≡ msg_unpack
    → counted_strings m n onto ≡ unpack_strings m n onto
unfolding counted_strings
counted_strings-unpack n m onto few unpacking = simp (ltb_le 16 n few, unpacking)

pub pstrings-unpack :
    (m : Message) (x n : ℕ) (ss onto : List Str) (cs : List Bytes)
    → n ≤ 16
    → IsBacked m
    → AllText n 0 ss
    → Ready m (concat (le16 n ∷ names_chunks n 0 ss cs))
    → (pstrings m x onto ≡ (past_names n 0 ss (advance m 2), n, copy_names n 0 ss onto))
      × Ready (past_names n 0 ss (advance m 2)) (concat cs)
unfolding pstrings
pstrings-unpack m x n ss onto cs few backed t r =
    let (e1, r1) = pu16-unpack m n x (concat (names_chunks n 0 ss cs)) (omega arith) r in
    let (e2, r2) = unpack_strings-unpack n (advance m 2) ss onto cs backed t r1 in
    (rw (e1, counted_strings-unpack n (advance m 2) onto few r.unpacking, e2), r2)

-- The first `n` qids of an array, from `i` on, taken from another. `dir_type` is not sent.
abbrev pub copy_qids : ℕ → ℕ → List Qid → List Qid → List Qid
copy_qids zero i from onto = onto
copy_qids (suc n) i from onto =
    let kept = (get_or onto i zero_qid).dir_type in
    copy_qids n (suc i) from (set onto i (record (get_or from i zero_qid) { dir_type = kept }))

abbrev pub past_qids : ℕ → Message → Message
past_qids zero m = m
past_qids (suc n) m = past_qids n (advance (advance (advance m 1) 4) 8)

pub past_qids-rewind :
    (n : ℕ) (m : Message) (p : ℕ) → record (past_qids n m) { pos = p } ≡ record m { pos = p }
past_qids-rewind zero m p = refl
past_qids-rewind (suc n) m p = past_qids-rewind n (advance (advance (advance m 1) 4) 8) p

qid_loop-unpack :
    (n i : ℕ) (m : Message) (qs onto : List Qid) (cs : List Bytes)
    → AllQid n i qs
    → Ready m (concat (qids_chunks n i qs cs))
    → (qid_loop n i m onto ≡ (past_qids n m, copy_qids n i qs onto))
      × Ready (past_qids n m) (concat cs)
unfolding qid_loop
qid_loop-unpack zero i m qs onto cs t r = (refl, r)
qid_loop-unpack (suc n) i m qs onto cs (t, ts) r =
    let q = get_or qs i zero_qid in
    let old = get_or onto i zero_qid in
    let (e1, r1) = pqid-unpack m old q (qids_chunks n (suc i) qs cs) t r in
    let (e2, r2) =
      qid_loop-unpack n (suc i) (advance (advance (advance m 1) 4) 8) qs
        (set onto i (record q { dir_type = old.dir_type })) cs ts r1 in
    (rw e1 e2, r2)

pub pqids-unpack :
    (m : Message) (x n : ℕ) (qs onto : List Qid) (cs : List Bytes)
    → n ≤ 16
    → AllQid n 0 qs
    → Ready m (concat (le16 n ∷ qids_chunks n 0 qs cs))
    → (pqids m x onto ≡ (past_qids n (advance m 2), n, copy_qids n 0 qs onto))
      × Ready (past_qids n (advance m 2)) (concat cs)
unfolding pqids counted_qids
pqids-unpack m x n qs onto cs few t r =
    let (e1, r1) = pu16-unpack m n x (concat (qids_chunks n 0 qs cs)) (omega arith) r in
    let (e2, r2) = qid_loop-unpack n 0 (advance m 2) qs onto cs t r1 in
    (rw (e1, ltb_le 16 n few, e2), r2)
