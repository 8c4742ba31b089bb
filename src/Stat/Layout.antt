-- ===== src/Stat/Layout.antt =====
-- The layout of a directory entry, and `mixp_pstat` of libmixp/convert.c in either mode.
use libmixp.Base.{◌^◌, ◌<◌, ◌≡◌, refl, ap, some, none, List, [], ◌∷◌, Bytes, arith}
use libmixp.Convert.{Message, msg_pack, advance, le16, le32, le64}
use libmixp.Convert.Emit.{emit, emits, concat, pu16-pack, pu32-pack, pu64-pack}
use libmixp.Convert.Load.{Ready, IsLoadable, pu16-unpack, pu32-unpack, pu64-unpack}
use libmixp.Compound.{Str}
use libmixp.Compound.Chunks.{str_chunks, qid_chunks, IsText, IsQid}
use libmixp.Compound.Pack.{pstring-pack, pqid-pack}
use libmixp.Compound.Unpack.{IsBacked, past, past_qids, pstring-unpack, pqid-unpack}
use libmixp.Stat.{Stat, stat_sizeof, fix_null, size_before, pstat_fields}

-- A directory entry that the protocol can carry, as a whole shorter than 2^16.
pub record IsStat (st : Stat) : Type 0 where
  pub short : stat_sizeof st < 2 ^ 16
  pub type : st.type < 2 ^ 16
  pub dev : st.dev < 2 ^ 32
  pub qid : IsQid st.qid
  pub mode : st.mode < 2 ^ 32
  pub atime : st.atime < 2 ^ 32
  pub mtime : st.mtime < 2 ^ 32
  pub length : IsLoadable st.length
  pub name : IsText st.name
  pub uid : IsText st.uid
  pub gid : IsText st.gid
  pub muid : IsText st.muid

abbrev pub text_chunks : Stat → List Bytes → List Bytes
text_chunks st more =
    str_chunks st.name (str_chunks st.uid (str_chunks st.gid (str_chunks st.muid more)))

-- The entry as the protocol lays it out, behind its size, and what follows it.
abbrev pub stat_before : Stat → List Bytes → List Bytes
stat_before st more =
    le16 st.type
    ∷ le32 st.dev
    ∷ qid_chunks st.qid
        (le32 st.mode ∷ le32 st.atime ∷ le32 st.mtime ∷ le64 st.length ∷ text_chunks st more)

abbrev pub stat_chunks : Stat → List Bytes
stat_chunks st = stat_before st []

fix_null-text : (s : Str) → IsText s → fix_null s ≡ s
unfolding fix_null
fix_null-text none t = cc (t.pointer)
fix_null-text (some bs) t = refl

pub pstat_fields-pack :
    (m : Message) (st : Stat)
    → m.mode ≡ msg_pack
    → IsStat st
    → pstat_fields m st ≡ (emits m (le16 (size_before msg_pack st) ∷ stat_chunks st), st)
unfolding pstat_fields emits emit
pstat_fields-pack m st packing c =
    let m0 = emit m (le16 (size_before msg_pack st)) in
    let m1 = emit m0 (le16 st.type) in
    let m2 = emit m1 (le32 st.dev) in
    let m3 = emits m2 (qid_chunks st.qid []) in
    let m4 = emit m3 (le32 st.mode) in
    let m5 = emit m4 (le32 st.atime) in
    let m6 = emit m5 (le32 st.mtime) in
    let m7 = emit m6 (le64 st.length) in
    let m8 = emits m7 (str_chunks st.name []) in
    let m9 = emits m8 (str_chunks st.uid []) in
    let m10 = emits m9 (str_chunks st.gid []) in
    rw (
      ap (λ mode. size_before mode st) packing,
      pu16-pack m (size_before msg_pack st) packing,
      pu16-pack m0 st.type packing,
      pu32-pack m1 st.dev packing,
      pqid-pack m2 packing st.qid,
      pu32-pack m3 st.mode packing,
      pu32-pack m4 st.atime packing,
      pu32-pack m5 st.mtime packing,
      pu64-pack m6 st.length packing,
      pstring-pack m7 packing st.name,
      pstring-pack m8 packing st.uid,
      pstring-pack m9 packing st.gid,
      pstring-pack m10 packing st.muid,
      fix_null-text st.name c.name,
      fix_null-text st.uid c.uid,
      fix_null-text st.gid c.gid,
      fix_null-text st.muid c.muid,
    )

pub pstat_fields-unpack :
    (m : Message) (st old : Stat) (more : List Bytes)
    → IsBacked m
    → IsStat st
    → Ready m (concat (le16 (size_before msg_pack st) ∷ stat_before st more))
    → (after : Message) × (pstat_fields m old
        ≡ (after, record st { qid = record st.qid { dir_type = old.qid.dir_type } }))
      × (record after { pos = m.end } ≡ record m { pos = m.end })
      × Ready after (concat more)
unfolding pstat_fields size_before
pstat_fields-unpack m st old more backed c r =
    let cs8 = text_chunks st more in
    let cs3 = le32 st.mode ∷ le32 st.atime ∷ le32 st.mtime ∷ le64 st.length ∷ cs8 in
    let (e0, r0) =
      pu16-unpack m (size_before msg_pack st) (size_before m.mode old)
        (concat (stat_before st more)) (omega (arith, c.short)) r in
    let m0 = advance m 2 in
    let (e1, r1) =
      pu16-unpack m0 st.type old.type (concat (le32 st.dev ∷ qid_chunks st.qid cs3)) c.type r0 in
    let m1 = advance m0 2 in
    let (e2, r2) = pu32-unpack m1 st.dev old.dev (concat (qid_chunks st.qid cs3)) c.dev r1 in
    let m2 = advance m1 4 in
    let (e3, r3) = pqid-unpack m2 old.qid st.qid cs3 c.qid r2 in
    let m3 = past_qids 1 m2 in
    let (e4, r4) =
      pu32-unpack m3 st.mode old.mode
        (concat (le32 st.atime ∷ le32 st.mtime ∷ le64 st.length ∷ cs8)) c.mode r3 in
    let m4 = advance m3 4 in
    let (e5, r5) =
      pu32-unpack m4 st.atime old.atime (concat (le32 st.mtime ∷ le64 st.length ∷ cs8)) c.atime
        r4 in
    let m5 = advance m4 4 in
    let (e6, r6) = pu32-unpack m5 st.mtime old.mtime (concat (le64 st.length ∷ cs8)) c.mtime r5 in
    let m6 = advance m5 4 in
    let (e7, r7) = pu64-unpack m6 st.length old.length (concat cs8) c.length r6 in
    let m7 = advance m6 8 in
    let (e8, r8) =
      pstring-unpack m7 old.name st.name
        (str_chunks st.uid (str_chunks st.gid (str_chunks st.muid more))) backed c.name r7 in
    let m8 = past m7 st.name in
    let (e9, r9) =
      pstring-unpack m8 old.uid st.uid (str_chunks st.gid (str_chunks st.muid more)) backed c.uid
        r8 in
    let m9 = past m8 st.uid in
    let (e10, r10) = pstring-unpack m9 old.gid st.gid (str_chunks st.muid more) backed c.gid r9 in
    let m10 = past m9 st.gid in
    let (e11, r11) = pstring-unpack m10 old.muid st.muid more backed c.muid r10 in
    (
      past m10 st.muid,
      rw (
        e0,
        e1,
        e2,
        e3,
        e4,
        e5,
        e6,
        e7,
        e8,
        e9,
        e10,
        e11,
        fix_null-text st.name c.name,
        fix_null-text st.uid c.uid,
        fix_null-text st.gid c.gid,
        fix_null-text st.muid c.muid,
      ),
      refl,
      r11,
    )
