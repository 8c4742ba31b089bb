-- ===== src/Ixpc.antt =====
-- cmd/ixpc.c: the commands of the command line client. The text that a command prints to the standard output is
-- the model's result, and messages to the standard error are not kept. `fatal` prints and goes on.
pub mod Entries
pub mod Listing
pub mod Ordered
pub mod Output
pub mod Sorted
pub mod Words
use libmixp.Base.{
  ℕ, zero, suc, ◌+◌, ◌-◌, ◌*◌, ◌/◌, ◌%◌, ◌^◌, Bool, true, false, ◌&&◌, not, Option, none, some,
  get_or, map, List, [], ◌∷◌, ◌++◌, Bytes, codes, length, ltb, leb, ◌==◌, if◌then◌else◌, replicate,
}
use libmixp.Convert.{Message}
use libmixp.Compound.{text_of, Qid}
use libmixp.Fcall.{Fcall}
use libmixp.Stat.{Stat, pstat}
use libmixp.Fatal.{digit_loop}
use libmixp.Request.{same_bytes}
use libmixp.Client.{Cfid, Pool, read, write}
use libmixp.Client.Files.{mixp_message, mixp_open, mixp_create, mixp_remove}

-- The sign of `strcmp`, as whether the first string is not behind the second.
unfoldable pub strcmp_le : Bytes → Bytes → Bool
strcmp_le [] t = true
strcmp_le (c ∷ s) [] = false
strcmp_le (c ∷ s) (d ∷ t) = if c == d then strcmp_le s t else ltb c d

unfoldable pub comp_stat : Stat → Stat → Bool
comp_stat s1 s2 = strcmp_le (text_of s1.name) (text_of s2.name)

abbrev pub modes : List Bytes
modes = map codes ("---" ∷ "--x" ∷ "-w-" ∷ "-wx" ∷ "r--" ∷ "r-x" ∷ "rw-" ∷ "rwx" ∷ [])

unfoldable pub setrwx : ℕ → Bytes
setrwx m = get_or modes m []

abbrev pub has_dmdir : ℕ → Bool
has_dmdir mode = leb (2 ^ 31) (mode % 2 ^ 32)

unfoldable pub str_of_mode : ℕ → Bytes
str_of_mode mode =
    (if has_dmdir mode then b'd' else b'-')
    ∷ b'-'
    ∷ (setrwx (mode / 64 % 8) ++ (setrwx (mode / 8 % 8) ++ setrwx (mode % 8)))

unfoldable pub or_empty : Option Bytes → Bytes
or_empty none = []
or_empty (some bs) = bs

-- `%5llu`
unfoldable pub print_length : ℕ → Bytes
print_length n =
    let digits = or_empty (digit_loop 20 n []) in replicate (5 - length digits) 32 ++ digits

-- The strings with a space between two, and a line feed.
unfoldable pub line : List Bytes → Bytes
line [] = 10 ∷ []
line (s ∷ []) = s ++ 10 ∷ []
line (s ∷ t ∷ more) = s ++ 32 ∷ line (t ∷ more)

-- `str_of_time` is the time zone's.
unfoldable pub print_stat : (ℕ → Bytes) → Stat → Bool → Bytes
print_stat str_of_time s details =
    let name = text_of s.name in
    let plain = if same_bytes name (codes "/") then [] else b'/' ∷ [] in
    if details
    then line (
        str_of_mode s.mode
        ∷ text_of s.uid
        ∷ text_of s.gid
        ∷ print_length s.length
        ∷ str_of_time s.mtime
        ∷ name
        ∷ [])
    else (name ++ ((if has_dmdir s.mode then plain else []) ++ 10 ∷ []))

-- What a command does: `crashes` is a read through NULL or a write behind a block, `loops` is a loop that has not
-- ended, and `printed` has the text printed so far.
pub data Ran {ℓ} (S : Type ℓ) : Type ℓ where
  crashes loops : Ran S
  printed : Pool → S → Bytes → Ran S

unfoldable pub is_last : List Bytes → Bool
is_last [] = true
is_last (arg ∷ argv) = false

unfoldable pub room_for : ℕ → ℕ → ℕ
room_for mbuf n = if ltb mbuf n then mbuf * 2 else mbuf

-- The block of `mbuf` bytes with a further word, and a space if it is not the last; `none` is a write behind it.
unfoldable pub put_arg : Bool → ℕ → Bytes → Option Bytes
put_arg last mbuf full =
    let spaced = if length full == mbuf then none else some (full ++ 32 ∷ []) in
    if ltb mbuf (length full) then none else (if last then some full else spaced)

unfoldable pub then_more : (Bytes → Option Bytes) → Option Bytes → Option Bytes
then_more next none = none
then_more next (some full) = next full

-- The words of `xawrite` in a block of `mbuf` bytes that has `buf`.
unfoldable pub gather : List Bytes → ℕ → Bytes → Option Bytes
gather [] mbuf buf = some buf
gather (arg ∷ argv) mbuf buf =
    let grown = room_for mbuf (length buf + length arg) in
    then_more (λ full. gather argv grown full) (put_arg (is_last argv) grown (buf ++ arg))

module _ {ℓ} {S : Type ℓ} (muxrpc : S → Fcall → S × Option Fcall) where
  -- The words are written to a fid that is not NULL; messages on a failure are not kept.
  unfoldable pub write_words : Pool → Cfid → Option (S × Cfid × Option ℕ) → Ran S
  write_words pool f none = loops
  write_words pool f (some (s, f1, n)) = printed pool s []

  unfoldable pub xawrite_opened : ℕ → List Bytes → Pool × S × Option Cfid → Ran S
  xawrite_opened rounds argv (pool, s, none) = crashes
  xawrite_opened rounds argv (pool, s, some f) = elim (gather argv 128 []) [
    | none ↦ crashes
    | some buf ↦ write_words pool f (write muxrpc rounds s f buf)
  ]

  -- The rest of a round of `write_data` behind its `mixp_write`; `again` are the further rounds.
  unfoldable pub after_chunk :
      (S → Cfid → Ran S) → Pool → Bytes → Option (S × Cfid × Option ℕ) → Ran S
  after_chunk again pool bs none = loops
  after_chunk again pool [] (some (s, f, n)) = printed pool s []
  after_chunk again pool (c ∷ bs) (some (s, f, n)) = again s f

  unfoldable pub write_chunk : (S → Cfid → Ran S) → ℕ → Pool → Cfid → S × Option Bytes → Ran S
  write_chunk again rounds pool f (s, none) = crashes
  write_chunk again rounds pool f (s, some bs) =
      after_chunk again pool bs (write muxrpc rounds s f bs)

  -- `input` is a read of the standard input into a block of `iounit` bytes. Its -1 is a very large `len`, of which
  -- `mixp_write` reads behind the block.
  unfoldable pub write_data : (S → ℕ → S × Option Bytes) → ℕ → ℕ → Pool → S → Cfid → Ran S
  write_data input zero rounds pool s f = loops
  write_data input (suc reads) rounds pool s f =
      write_chunk (λ s1 f1. write_data input reads rounds pool s1 f1) rounds pool f
        (input s f.iounit)

  unfoldable pub xwrite_opened : (S → ℕ → S × Option Bytes) → ℕ → ℕ → Pool × S × Option Cfid → Ran S
  xwrite_opened input reads rounds (pool, s, none) = crashes
  xwrite_opened input reads rounds (pool, s, some f) = write_data input reads rounds pool s f

  -- The directory bit of a mode, asked of the type of a qid, which is a byte.
  unfoldable pub xcreate_opened :
      (S → ℕ → S × Option Bytes) → ℕ → ℕ → Option (Pool × S × Option Cfid) → Ran S
  xcreate_opened input reads rounds none = crashes
  xcreate_opened input reads rounds (some (pool, s, none)) = crashes
  xcreate_opened input reads rounds (some (pool, s, some f)) =
      if has_dmdir (f.qid.type % 256)
      then printed pool s []
      else write_data input reads rounds pool s f

  unfoldable pub taken {κ} :
      {A : Type κ} → (S → Cfid → A → Option (S × A)) → S → Cfid → Option A → Option (S × A)
  taken again s f none = none
  taken again s f (some acc) = again s f acc

  unfoldable pub after_piece {κ} :
      {A : Type κ}
      → (S → Cfid → A → Option (S × A))
      → (A → Bytes → Option A)
      → A
      → Option (S × Cfid × Option Bytes)
      → Option (S × A)
  after_piece again take acc none = none
  after_piece again take acc (some (s, f, none)) = some (s, acc)
  after_piece again take acc (some (s, f, some [])) = some (s, acc)
  after_piece again take acc (some (s, f, some (c ∷ bs))) = taken again s f (take acc (c ∷ bs))

  -- `while((count = mixp_read(fid, buf, fid->iounit)) > 0)` with a body that has made `acc` of the pieces before;
  -- a failure ends it as well.
  unfoldable pub read_all {κ} :
      {A : Type κ} → ℕ → ℕ → (A → Bytes → Option A) → S → Cfid → A → Option (S × A)
  read_all zero rounds take s f acc = none
  read_all (suc reads) rounds take s f acc =
      after_piece (λ s1 f1 acc1. read_all reads rounds take s1 f1 acc1) take acc
        (read muxrpc rounds s f f.iounit)

  unfoldable pub all_printed : Pool → Option (S × Bytes) → Ran S
  all_printed pool none = loops
  all_printed pool (some (s, text)) = printed pool s text

  unfoldable pub xread_opened : ℕ → ℕ → Pool × S × Option Cfid → Ran S
  xread_opened reads rounds (pool, s, none) = crashes
  xread_opened reads rounds (pool, s, some f) =
      all_printed pool (read_all reads rounds (λ text bs. some (text ++ bs)) s f [])

-- `stray` is as for `walk`.
module _ {ℓ} {S : Type ℓ} (muxrpc : S → Fcall → S × Option Fcall) (stray : ℕ → Qid) where
  unfoldable pub xawrite : ℕ → Pool → S → Bytes → List Bytes → Ran S
  xawrite rounds pool s file argv =
      xawrite_opened muxrpc rounds argv (mixp_open muxrpc stray pool s file 1)

  unfoldable pub xremove : Pool → S → Bytes → Ran S
  xremove pool s file =
      let (pool1, s1, ok) = mixp_remove muxrpc stray pool s file in printed pool1 s1 []

  unfoldable pub xread : ℕ → ℕ → Pool → S → Bytes → Ran S
  xread reads rounds pool s file =
      xread_opened muxrpc reads rounds (mixp_open muxrpc stray pool s file 0)

  unfoldable pub xwrite : (S → ℕ → S × Option Bytes) → ℕ → ℕ → Pool → S → Bytes → Ran S
  xwrite input reads rounds pool s file =
      xwrite_opened muxrpc input reads rounds (mixp_open muxrpc stray pool s file 1)

  unfoldable pub xcreate : (S → ℕ → S × Option Bytes) → ℕ → ℕ → Pool → S → Bytes → Ran S
  xcreate input reads rounds pool s file =
      xcreate_opened muxrpc input reads rounds (mixp_create muxrpc stray pool s file 511 1)
