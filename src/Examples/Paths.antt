-- ===== src/Examples/Paths.antt =====
-- The calls on paths of libmixp/client.c against a server that answers every call with an empty answer of
-- its type.
use libmixp.Base.{ℕ, suc, ◌+◌, ◌≡◌, Bool, Option, none, some, [], ◌∷◌, ◌++◌, Bytes, ◌==◌}
use libmixp.Compound.{Qid, zero_qid}
use libmixp.Fcall.{Fcall, blank}
use libmixp.Stat.{Stat}
use libmixp.Tokenizer.Paths.{Lacks}
use libmixp.Request.{current_version}
use libmixp.Client.{Pool}
use libmixp.Client.Files.{walk, create_walked, mixp_create}
use libmixp.Client.Dirs.{slashes, mixp_create-split}

abbrev empty_answer : ℕ → Fcall → ℕ × Option Fcall
empty_answer served f = (
  suc served,
  some (record blank { type = f.type + 1; nwqid = 16; version = some current_version }),
)

abbrev no_qid : ℕ → Qid
no_qid n = zero_qid

abbrev root_only : Pool
root_only = record { lastfid = 1; freefid = [] }

abbrev root_used : ℕ → Bool
root_used q = q == 1

mixp_create-split_example :
    ((dir : Bytes) (b : ℕ) (name : Bytes) (n : ℕ)
      → Lacks b'/' (b ∷ name)
      → mixp_create empty_answer no_qid root_only 0 (dir ++ b'/' ∷ ((b ∷ name) ++ slashes n)) 6 1
        ≡ create_walked empty_answer no_qid
            (b ∷ name)
            6
            1
            (walk empty_answer no_qid root_only 0 dir))
    × ((b : ℕ) (name : Bytes) (n : ℕ)
        → Lacks b'/' (b ∷ name)
        → mixp_create empty_answer no_qid root_only 0 ((b ∷ name) ++ slashes n) 6 1 ≡ none)
    × ((n : ℕ) → mixp_create empty_answer no_qid root_only 0 (slashes n) 6 1 ≡ none)
mixp_create-split_example = mixp_create-split empty_answer no_qid root_only 0 6 1
