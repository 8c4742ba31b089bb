-- ===== src/Stat/RoundTrip.antt =====
-- `mixp_pstat` of libmixp/convert.c: a directory entry packed and read back.
use libmixp.Base.{
  length-append, padded, length-padded, ◌+◌, ◌≡◌, ap, List, [], ◌∷◌, Bytes, length, arith,
}
use libmixp.Convert.{msg_pack, le16}
use libmixp.Convert.Emit.{concat}
use libmixp.Compound.{Str, bytes_of}
use libmixp.Compound.Chunks.{length16, str_chunks, IsText}
use libmixp.Stat.{Stat, string_size, stat_sizeof, size_before}
use libmixp.Stat.Layout.{IsStat, stat_chunks}

length-str_chunks :
    (s : Str) (cs : List Bytes)
    → IsText s
    → length (concat (str_chunks s cs)) ≡ string_size s + length (concat cs)
length-str_chunks s cs t = omega (
  arith,
  length-append (padded (length16 s) (bytes_of s)) (concat cs),
  length-padded (length16 s) (bytes_of s),
  t.whole,
  t.short,
)

-- The entry with its size is as long as `mixp_stat_sizeof` says.
length-stat_chunks :
    (st : Stat)
    → IsStat st
    → length (concat (le16 (size_before msg_pack st) ∷ stat_chunks st)) ≡ stat_sizeof st
unfolding stat_sizeof
length-stat_chunks st c = omega (
  arith,
  length-str_chunks st.name (str_chunks st.uid (str_chunks st.gid (str_chunks st.muid []))) c.name,
  length-str_chunks st.uid (str_chunks st.gid (str_chunks st.muid [])) c.uid,
  length-str_chunks st.gid (str_chunks st.muid []) c.gid,
  length-str_chunks st.muid [] c.muid,
)

-- The buffer with the entry in it.
abbrev pub entry : Stat → Bytes
entry st = concat (le16 (size_before msg_pack st) ∷ stat_chunks st)

pub size-entry :
    (st : Stat)
    → IsStat st
    → le16 (length (concat (stat_chunks st))) ≡ le16 (size_before msg_pack st)
unfolding size_before
size-entry st c = ap le16 (omega (arith, c.short, length-stat_chunks st c))
