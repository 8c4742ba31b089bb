-- ===== src/Message/Walk.antt =====
-- A walk with more names than an fcall has room for, in libmixp/message.c.
use libmixp.Base.{
  ℕ, zero, suc, ◌+◌, ◌^◌, ◌<◌, ◌≡◌, none, List, [], ◌∷◌, ◌++◌, Bytes, lt→ltb, get_elem?, some,
  arith,
}
use libmixp.Convert.{Message, msg_unpack, advance, le8, le16, le32}
use libmixp.Convert.Emit.{concat}
use libmixp.Convert.Load.{Ready, pu8-unpack, pu16-unpack, pu32-unpack}
use libmixp.Compound.{Str, counted_strings, pstrings}
use libmixp.Fcall.{Fcall, fcall_type, dump, dump_names, readable}
use libmixp.Message.{pfid, pwalk, pbody, pfcall, msg2fcall}

too_many :
    (m : Message) (n x : ℕ) (names : List Str) (rest : Bytes)
    → 16 < n
    → n < 2 ^ 16
    → Ready m (le16 n ++ rest)
    → pstrings m x names ≡ (record m { pos = m.end + 1 }, n, names)
unfolding pstrings counted_strings
too_many m n x names rest many h r =
    let (e, _) = pu16-unpack m n x rest h r in rw (e, lt→ltb 16 n many)

-- The fcall that a walk header leaves behind: the count is stored and the names are not.
abbrev headed : Fcall → ℕ → ℕ → ℕ → ℕ → Fcall
headed g tag fid newfid n = record g {
  type = 110;
  tag = tag;
  fid = fid;
  newfid = newfid;
  nwname = n;
}

walk_overrun :
    (m : Message) (g : Fcall) (tag fid newfid n : ℕ) (rest : Bytes)
    → tag < 2 ^ 16
    → fid < 2 ^ 32
    → newfid < 2 ^ 32
    → 16 < n
    → n < 2 ^ 16
    → Ready m (concat (le8 110 ∷ le16 tag ∷ le32 fid ∷ le32 newfid ∷ le16 n ∷ rest ∷ []))
    → pfcall m g ≡ (record m { pos = m.end + 1 }, headed g tag fid newfid n)
unfolding pfcall pbody pfid pwalk fcall_type
walk_overrun m g tag fid newfid n rest ht hf hn many h r =
    let c4 = le16 n ∷ rest ∷ [] in
    let c3 = le32 newfid ∷ c4 in
    let c2 = le32 fid ∷ c3 in
    let (e1, r1) = pu8-unpack m 110 g.type (concat (le16 tag ∷ c2)) (omega arith) r in
    let m1 = advance m 1 in
    let (e2, r2) = pu16-unpack m1 tag g.tag (concat c2) ht r1 in
    let m2 = advance m1 2 in
    let (e3, r3) = pu32-unpack m2 fid g.fid (concat c3) hf r2 in
    let m3 = advance m2 4 in
    let (e4, r4) = pu32-unpack m3 newfid g.newfid (concat c4) hn r3 in
    rw (e1, e2, e3, e4, too_many (advance m3 4) n g.nwname g.wname (concat (rest ∷ [])) many h r4)

unreadable :
    (n : ℕ) (names : List Str)
    → 0 < n
    → get_elem? names 0 ≡ some none
    → dump_names n 0 names [] ≡ none
unfolding dump_names readable
unreadable zero names h e = absurd (omega arith)
unreadable (suc n) names h e = rw (e, dump_names)

-- A received walk that announces more than 16 names (and has the header of one, whatever follows it)
-- makes `mixp_msg2fcall` fault, on an fcall whose first name is NULL as `calloc` leaves it: the names
-- are refused, but the print-out runs over the announced number of them all the same.
pub walk_faults :
    (m : Message) (g : Fcall) (tag fid newfid n : ℕ) (rest : Bytes)
    → tag < 2 ^ 16
    → fid < 2 ^ 32
    → newfid < 2 ^ 32
    → 16 < n
    → n < 2 ^ 16
    → get_elem? g.wname 0 ≡ some none
    → Ready
        (record m { pos = 4; mode = msg_unpack })
        (concat (le8 110 ∷ le16 tag ∷ le32 fid ∷ le32 newfid ∷ le16 n ∷ rest ∷ []))
    → msg2fcall m g ≡ none
unfolding msg2fcall dump fcall_type
walk_faults m g tag fid newfid n rest ht hf hn many h null r = rw (
  walk_overrun (record m { pos = 4; mode = msg_unpack }) g tag fid newfid n rest ht hf hn many h r,
  unreadable n g.wname (omega arith) null,
)
