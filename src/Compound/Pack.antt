-- ===== src/Compound/Pack.antt =====
-- In the mode MsgPack the compound routines of convert.c write their pieces, and change no value.
use libmixp.Base.{
  ℕ, zero, suc, ◌≤◌, ◌≡◌, refl, ap, ◌∙◌, none, List, [], ◌∷◌, padded, length-padded, get_or, set,
  arith, ltb_le,
}
use libmixp.Convert.{Message, msg_pack, le16}
use libmixp.Convert.Emit.{emit, emits, mode-emits, pu8-pack, pu16-pack, pu32-pack, pu64-pack}
use libmixp.Compound.{
  Str, bytes_of, pstring, pdata, pack_strings, counted_strings, pstrings, Qid, zero_qid, pqid,
  qid_loop, counted_qids, pqids,
}
use libmixp.Compound.Chunks.{length16, str_chunks, names_chunks, qid_chunks, qids_chunks}

pub set-get_or {ℓ} : {A : Type ℓ} (xs : List A) (i : ℕ) (d : A) → set xs i (get_or xs i d) ≡ xs
set-get_or [] i d = refl
set-get_or (x ∷ xs) zero d = refl
set-get_or (x ∷ xs) (suc i) d = ap (λ t. x ∷ t) (set-get_or xs i d)

module _ (m : Message) (packing : m.mode ≡ msg_pack) where
  pub pdata-pack :
      (block : Str) (n : ℕ) → pdata m block n ≡ (emit m (padded n (bytes_of block)), block)
  unfolding pdata emit
  pdata-pack block n = rw (packing, length-padded n (bytes_of block)) (ground arith)

module _ (m : Message) (packing : m.mode ≡ msg_pack) where
  pub pstring-pack : (s : Str) → pstring m s ≡ (emits m (str_chunks s []), s)
  unfolding pstring emits emit
  pstring-pack s = rw (
    pu16-pack m (length16 s) packing,
    pdata-pack (emit m (le16 (length16 s))) packing s (length16 s),
  )

  pub pqid-pack : (q : Qid) → pqid m q ≡ (emits m (qid_chunks q []), q)
  unfolding pqid emits emit
  pqid-pack q = rw (
    pu8-pack m q.type packing,
    pu32-pack (emit m _) q.version packing,
    pu64-pack (emit (emit m _) _) q.path packing,
  )

-- The loops, for any pieces `cs` that follow.
pub pack_strings-emits :
    (n i : ℕ) (m : Message) (ss : List Str)
    → m.mode ≡ msg_pack
    → pack_strings n i m ss ≡ emits m (names_chunks n i ss [])
unfolding pack_strings emits
pack_strings-emits zero i m ss packing = refl
pack_strings-emits (suc n) i m ss packing =
    let s = get_or ss i none in
    rw
      (
        pu16-pack m (length16 s) packing,
        pdata-pack (emit m (le16 (length16 s))) (unfold emit in packing) s (length16 s),
      )
      (pack_strings-emits n (suc i)
        (emit (emit m (le16 (length16 s))) (padded (length16 s) (bytes_of s))) ss
        (unfold emit in packing))

pub qid_loop-pack :
    (n i : ℕ) (m : Message) (qs : List Qid)
    → m.mode ≡ msg_pack
    → qid_loop n i m qs ≡ (emits m (qids_chunks n i qs []), qs)
unfolding qid_loop emits
qid_loop-pack zero i m qs packing = refl
qid_loop-pack (suc n) i m qs packing =
    let q = get_or qs i zero_qid in
    rw (pqid-pack m packing q, set-get_or qs i zero_qid)
      (qid_loop-pack n (suc i) (emits m (qid_chunks q [])) qs
        (mode-emits m (qid_chunks q []) ∙ packing))

module _ (m : Message) (packing : m.mode ≡ msg_pack) (n : ℕ) (few : n ≤ 16) where
  counted_strings-pack :
      (ss : List Str) → counted_strings m n ss ≡ (emits m (names_chunks n 0 ss []), ss)
  unfolding counted_strings
  counted_strings-pack ss = simp (ltb_le 16 n few, packing, pack_strings-emits n 0 m ss packing)

  counted_qids-pack : (qs : List Qid) → counted_qids m n qs ≡ (emits m (qids_chunks n 0 qs []), qs)
  unfolding counted_qids
  counted_qids-pack qs = rw (ltb_le 16 n few, qid_loop-pack n 0 m qs packing)

module _ (m : Message) (packing : m.mode ≡ msg_pack) (n : ℕ) (few : n ≤ 16) where
  pub pstrings-pack :
      (ss : List Str) → pstrings m n ss ≡ (emits m (le16 n ∷ names_chunks n 0 ss []), n, ss)
  unfolding pstrings emits emit
  pstrings-pack ss =
      rw (pu16-pack m n packing, counted_strings-pack (emit m (le16 n)) packing n few ss)

  pub pqids-pack :
      (qs : List Qid) → pqids m n qs ≡ (emits m (le16 n ∷ qids_chunks n 0 qs []), n, qs)
  unfolding pqids emits emit
  pqids-pack qs = rw (pu16-pack m n packing, counted_qids-pack (emit m (le16 n)) packing n few qs)
