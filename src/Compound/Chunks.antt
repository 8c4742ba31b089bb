-- ===== src/Compound/Chunks.antt =====
-- The bytes that the 9P protocol gives to strings and qids, as the pieces that convert.c writes.
use libmixp.Base.{
  ℕ, zero, suc, ◌%◌, ◌^◌, ◌<◌, ◌≡◌, some, List, ◌∷◌, Bytes, length, padded, get_or, none,
}
use libmixp.Convert.{le8, le16, le32, le64}
use libmixp.Convert.Load.{IsLoadable}
use libmixp.Compound.{Str, bytes_of, strlen, Qid, zero_qid}

abbrev pub length16 : Str → ℕ
length16 s = strlen s % 2 ^ 16

abbrev pub str_chunks : Str → List Bytes → List Bytes
str_chunks s cs = le16 (length16 s) ∷ padded (length16 s) (bytes_of s) ∷ cs

abbrev pub names_chunks : ℕ → ℕ → List Str → List Bytes → List Bytes
names_chunks zero i ss cs = cs
names_chunks (suc n) i ss cs = str_chunks (get_or ss i none) (names_chunks n (suc i) ss cs)

abbrev pub qid_chunks : Qid → List Bytes → List Bytes
qid_chunks q cs = le8 q.type ∷ le32 q.version ∷ le64 q.path ∷ cs

abbrev pub qids_chunks : ℕ → ℕ → List Qid → List Bytes → List Bytes
qids_chunks zero i qs cs = cs
qids_chunks (suc n) i qs cs = qid_chunks (get_or qs i zero_qid) (qids_chunks n (suc i) qs cs)

-- A string that the protocol can carry: not NULL, with no zero inside, shorter than 2^16.
pub record IsText (s : Str) : Type 0 where
  pub pointer : s ≡ some (bytes_of s)
  pub whole : strlen s ≡ length (bytes_of s)
  pub short : length (bytes_of s) < 2 ^ 16

abbrev pub AllText : ℕ → ℕ → List Str → Type 0
AllText zero i ss = Unit
AllText (suc n) i ss = IsText (get_or ss i none) × AllText n (suc i) ss

pub record IsQid (q : Qid) : Type 0 where
  pub type : q.type < 2 ^ 8
  pub version : q.version < 2 ^ 32
  pub path : IsLoadable q.path

abbrev pub AllQid : ℕ → ℕ → List Qid → Type 0
AllQid zero i qs = Unit
AllQid (suc n) i qs = IsQid (get_or qs i zero_qid) × AllQid n (suc i) qs
