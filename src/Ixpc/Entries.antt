-- ===== src/Ixpc/Entries.antt =====
-- `xls` of cmd/ixpc.c: the entries of a directory are read, sorted by their names and printed.
use libmixp.Base.{
  ℕ, zero, suc, Bool, not, ◌||◌, Option, none, some, List, [], ◌∷◌, ◌++◌, Bytes, length, ltb,
  if◌then◌else◌,
}
use libmixp.Convert.{Message}
use libmixp.Compound.{Qid}
use libmixp.Fcall.{Fcall}
use libmixp.Stat.{Stat, pstat}
use libmixp.Client.{Cfid, Pool}
use libmixp.Client.Files.{mixp_message, mixp_open, mixp_stat}
use libmixp.Ixpc.{comp_stat, has_dmdir, print_stat, Ran, crashes, loops, printed, read_all}

-- The entry behind those that are there.
unfoldable pub pushed : Option Stat → List Stat → List Stat
pushed none stats = stats
pushed (some st) stats = stats ++ st ∷ []

-- `while(m.pos < m.end) mixp_pstat(&m, &stat[nstat++])`; `old` is what the block has there.
unfoldable pub unpack_entries : Stat → ℕ → Message → List Stat → Option (List Stat)
unpack_entries old zero m stats = none
unpack_entries old (suc rounds) m stats =
    let (m1, st, ok) = pstat m (some old) in
    let rest = unpack_entries old rounds m1 (pushed st stats) in
    if ltb m.pos m.end then rest else some stats

unfoldable pub take_entries : Stat → List Stat → Bytes → Option (List Stat)
take_entries old stats buf =
    unpack_entries old (suc (length buf)) (mixp_message buf (length buf)) stats

-- `qsort` with `comp_stat`
unfoldable pub place : Stat → List Stat → List Stat
place st [] = st ∷ []
place st (s ∷ stats) =
    let rest = place st stats in if comp_stat st s then st ∷ s ∷ stats else s ∷ rest

unfoldable pub qsort : List Stat → List Stat
qsort [] = []
qsort (st ∷ stats) = place st (qsort stats)

unfoldable pub print_entries : (ℕ → Bytes) → Bool → List Stat → Bytes
print_entries str_of_time details [] = []
print_entries str_of_time details (st ∷ stats) =
    print_stat str_of_time st details ++ print_entries str_of_time details stats

module _ {ℓ} {S : Type ℓ} (muxrpc : S → Fcall → S × Option Fcall) (stray : ℕ → Qid) (old : Stat)
    (str_of_time : ℕ → Bytes) where
  unfoldable pub list_entries : Bool → Pool → Option (S × List Stat) → Ran S
  list_entries lflag pool none = loops
  list_entries lflag pool (some (s, stats)) =
      printed pool s (print_entries str_of_time lflag (qsort stats))

  unfoldable pub list_opened : ℕ → ℕ → Bool → Pool × S × Option Cfid → Ran S
  list_opened reads rounds lflag (pool, s, none) = crashes
  list_opened reads rounds lflag (pool, s, some f) =
      list_entries lflag pool (read_all muxrpc reads rounds (take_entries old) s f [])

  unfoldable pub list_stat : ℕ → ℕ → Bytes → Bool → Bool → Pool × S × Option Stat → Ran S
  list_stat reads rounds file lflag dflag (pool, s, none) = crashes
  list_stat reads rounds file lflag dflag (pool, s, some st) =
      if dflag || not (has_dmdir st.mode)
      then printed pool s (print_stat str_of_time st lflag)
      else list_opened reads rounds lflag (mixp_open muxrpc stray pool s file 0)

  unfoldable pub xls : ℕ → ℕ → Bool → Bool → Pool → S → Bytes → Ran S
  xls reads rounds lflag dflag pool s file =
      list_stat reads rounds file lflag dflag (mixp_stat muxrpc stray old pool s file)
