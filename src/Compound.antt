-- ===== src/Compound.antt =====
-- libmixp/convert.c, the strings, blocks and qids.
-- A `char *` is `none` for NULL or the block that it points to, without a terminator. `strlen`
-- and `memcpy` of a NULL pointer are undefined in C; here NULL reads as an empty block.
pub mod Chunks
pub mod Pack
pub mod Unpack
pub mod Heap
use libmixp.Base.{
  ℕ, zero, suc, ◌+◌, ◌%◌, ◌^◌, Option, none, some, List, [], ◌∷◌, Bytes, write_at, read_at, padded,
  get_or, set, take, ltb, ◌==◌, if◌then◌else◌,
}
use libmixp.Convert.{
  msg_pack, msg_unpack, Message, advance, has_room, pu8, pu16, pu16_load, pu32, pu64,
}

abbrev pub Str : Type 0
Str = Option Bytes

abbrev pub bytes_of : Str → Bytes
bytes_of none = []
bytes_of (some bs) = bs

count_nonzero : Bytes → ℕ
count_nonzero [] = 0
count_nonzero (b ∷ bs) = if b == 0 then 0 else suc (count_nonzero bs)

-- `strlen`: the bytes before the first zero
unfoldable pub strlen : Str → ℕ
unfolding count_nonzero
strlen s = count_nonzero (bytes_of s)

-- The string that `strcmp` sees.
abbrev pub text_of : Str → Bytes
text_of s = take (strlen s) (bytes_of s)

abbrev pub max_welem : ℕ
max_welem = 16

unfoldable pub pdata : Message → Str → ℕ → Message × Str
pdata m block len =
    let packed = record m { buf = write_at m.buf m.pos (padded len (bytes_of block)) } in
    if has_room m len
    then elim m.mode [
      | msg_unpack ↦ (advance m len, some (read_at m.buf m.pos len))
      | msg_pack ↦ (advance packed len, block)
    ]
    else (advance m len, block)

-- `len` is an `unsigned short`, so the length is cut to 16 bits. The rest of the routine is the code
-- of `mixp_pdata`; its `malloc` takes one byte more, for the terminator.
unfoldable pub pstring : Message → Str → Message × Str
pstring m s = let (m1, len) = pu16 m (strlen s % 2 ^ 16) in pdata m1 s len

-- The first loop of `mixp_pstrings`: the sizes are added up, and `none` is its early return.
unfoldable pub scan_strings : ℕ → Message → ℕ → Message × Option ℕ
scan_strings zero m total = (m, some total)
scan_strings (suc n) m total =
    let (m1, len) = pu16_load m in
    let m2 = advance m1 len in
    let rest = scan_strings n m2 (total + len) in if ltb m2.end m2.pos then (m2, none) else rest

-- The second loop when reading, from the name `i` on; `used` counts the bytes that it has written
-- behind the pointer that `malloc` gave, a terminator for each name included.
unfoldable pub fill_strings : ℕ → ℕ → Message → List Str → ℕ → Message × List Str × ℕ
fill_strings zero i m strings used = (m, strings, used)
fill_strings (suc n) i m strings used =
    let (m1, len) = pu16_load m in
    fill_strings n (suc i) (advance m1 len) (set strings i (some (read_at m1.buf m1.pos len)))
      (used + len + 1)

-- The second loop when writing.
unfoldable pub pack_strings : ℕ → ℕ → Message → List Str → Message
pack_strings zero i m strings = m
pack_strings (suc n) i m strings =
    let s = get_or strings i none in
    let (m1, len) = pu16 m (strlen s % 2 ^ 16) in pack_strings n (suc i) (pdata m1 s len).0 strings

-- The reading half of `mixp_pstrings`, behind the count: the second loop starts over at `start`.
unfoldable pub after_scan : Option ℕ → ℕ → ℕ → Message → List Str → Message × List Str
after_scan none num start m strings = (m, strings)
after_scan (some size) num start m strings =
    let (m1, filled, used) = fill_strings num 0 (record m { pos = start }) strings 0 in (m1, filled)

unfoldable pub unpack_strings : Message → ℕ → List Str → Message × List Str
unpack_strings m num strings =
    let (m1, total) = scan_strings num m 0 in after_scan total num m.pos m1 strings

-- `mixp_pstrings` behind the count: more than MIXP_MAX_WELEM names push the cursor past the end.
unfoldable pub counted_strings : Message → ℕ → List Str → Message × List Str
counted_strings m num strings =
    if ltb max_welem num then (record m { pos = m.end + 1 }, strings) else elim m.mode [
      | msg_unpack ↦ unpack_strings m num strings
      | msg_pack ↦ (pack_strings num 0 m strings, strings)
    ]

unfoldable pub pstrings : Message → ℕ → List Str → Message × ℕ × List Str
pstrings m num strings =
    let (m1, n) = pu16 m num in let (m2, names) = counted_strings m1 n strings in (m2, n, names)

pub record Qid : Type 0 where
  pub type : ℕ
  pub version : ℕ
  pub path : ℕ
  pub dir_type : ℕ

abbrev pub zero_qid : Qid
zero_qid = record { type = 0; version = 0; path = 0; dir_type = 0 }

unfoldable pub pqid : Message → Qid → Message × Qid
pqid m qid =
    let (m1, type) = pu8 m qid.type in
    let (m2, version) = pu32 m1 qid.version in
    let (m3, path) = pu64 m2 qid.path in
    (m3, record qid { type = type; version = version; path = path })

unfoldable pub qid_loop : ℕ → ℕ → Message → List Qid → Message × List Qid
qid_loop zero i m qids = (m, qids)
qid_loop (suc n) i m qids =
    let (m1, qid) = pqid m (get_or qids i zero_qid) in qid_loop n (suc i) m1 (set qids i qid)

-- `mixp_pqids` behind the count.
unfoldable pub counted_qids : Message → ℕ → List Qid → Message × List Qid
counted_qids m num qids =
    if ltb max_welem num then (record m { pos = m.end + 1 }, qids) else qid_loop num 0 m qids

unfoldable pub pqids : Message → ℕ → List Qid → Message × ℕ × List Qid
pqids m num qids =
    let (m1, n) = pu16 m num in let (m2, filled) = counted_qids m1 n qids in (m2, n, filled)
