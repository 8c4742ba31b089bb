-- ===== src/Client.antt =====
-- libmixp/client.c: the fids of a client, and the transfer of a file's contents. `muxrpc`, which sends a
-- call and waits for the answer of the server, is a parameter; `S` is what lies behind it. Lengths,
-- counts and an open file's `iounit` stay below 2^31, where the source's `int` holds them. A loop is
-- given rounds; `none` is a loop that is still running when they are used up.
pub mod Fids
pub mod Opening
pub mod Reading
pub mod Rounds
pub mod Writing
pub mod Stalled
pub mod Files
pub mod Mount
pub mod Owned
pub mod Connect
pub mod Dirs
use libmixp.Base.{
  ℕ, zero, suc, ◌+◌, ◌-◌, ◌%◌, ◌^◌, Bool, true, false, Option, none, some, List, [], ◌∷◌, ◌++◌,
  Bytes, length, read_at, padded, ltb, ◌==◌, if◌then◌else◌,
}
use mathlib.Core.Option
use libmixp.Compound.{bytes_of, Qid, zero_qid}
use libmixp.Fcall.{Fcall, blank}

pub record Cfid : Type 0 where
  pub fid : ℕ
  pub qid : Qid
  pub mode : ℕ
  pub is_open : ℕ
  pub iounit : ℕ
  pub offset : ℕ

-- The part of MIXP_CLIENT that hands out fids. `freefid` is a list linked by `next`.
pub record Pool : Type 0 where
  pub lastfid : ℕ
  pub freefid : List Cfid

-- `calloc`, and `++c->lastfid`
unfoldable pub new_fid : ℕ → Cfid
new_fid fid = record { fid = fid; qid = zero_qid; mode = 0; is_open = 0; iounit = 0; offset = 0 }

unfoldable pub take_fid : ℕ → List Cfid → Pool × Cfid
take_fid lastfid [] =
    let fid = (lastfid + 1) % 2 ^ 32 in (record { lastfid = fid; freefid = [] }, new_fid fid)
take_fid lastfid (f ∷ rest) =
    (record { lastfid = lastfid; freefid = rest }, record f { is_open = 0 })

unfoldable pub getfid : Pool → Pool × Cfid
getfid c = take_fid c.lastfid c.freefid

unfoldable pub putfid : Pool → Cfid → Pool
putfid c f =
    if f.fid == c.lastfid
    then record c { lastfid = (c.lastfid + 2 ^ 32 - 1) % 2 ^ 32 }
    else record c { freefid = f ∷ c.freefid }

-- P9_RError
abbrev pub r_error_type : ℕ
r_error_type = 107

-- `type ^ 1`
abbrev pub answer_type : ℕ → ℕ
answer_type type = if type % 2 == 0 then type + 1 else type - 1

-- What `do_fcall` makes of an answer.
unfoldable pub accept : Fcall → Option Fcall → Option Fcall
accept fcall none = none
accept fcall (some ret) =
    if ret.type == r_error_type
    then none
    else (if ret.type == answer_type fcall.type then some ret else none)

abbrev pub max_iounit : ℕ
max_iounit = 8192 - 17

-- `min`, on `int`s that are not negative
abbrev pub smaller : ℕ → ℕ → ℕ
smaller a b = if ltb a b then a else b

abbrev pub default_iounit : ℕ
default_iounit = 4096

-- `min(iounit, MIXP_MAX_MSG-17)` on `int`s, and back to `size_t`.
unfoldable pub bounded_iounit : ℕ → ℕ
bounded_iounit iounit =
    let int = iounit % 2 ^ 32 in
    if ltb int (2 ^ 31) then smaller int max_iounit else int + 2 ^ 64 - 2 ^ 32

unfoldable pub initfid : Cfid → Fcall → Cfid
initfid f fcall =
    let iounit = bounded_iounit fcall.iounit in
    record f {
      is_open = 1;
      offset = 0;
      iounit = if iounit == 0 then default_iounit else iounit;
      qid = fcall.qid;
    }

abbrev pub read_request : Cfid → ℕ → ℕ → Fcall
read_request f offset n = record blank { type = 116; fid = f.fid; offset = offset; count = n }

abbrev pub write_request : Cfid → ℕ → Bytes → Fcall
write_request f n bs = record blank {
  type = 118;
  fid = f.fid;
  offset = f.offset;
  count = n;
  payload = some bs;
}

-- The bytes of an answer to a read of `n` bytes; `none` is a failure.
unfoldable pub piece : ℕ → Option Fcall → Option Bytes
piece n none = none
piece n (some ret) =
    if ltb n ret.count then none else some (padded ret.count (bytes_of ret.payload))

unfoldable pub after_read {ℓ} : {S : Type ℓ} → Cfid → S × Option Bytes → S × Cfid × Option Bytes
after_read f (s, none) = (s, f, none)
after_read f (s, some bs) = (s, record f { offset = f.offset + length bs }, some bs)

unfoldable pub after_write {ℓ} : {S : Type ℓ} → S × Cfid × Option ℕ → S × Cfid × Option ℕ
after_write (s, f, none) = (s, f, none)
after_write (s, f, some n) = (s, record f { offset = f.offset + n }, some n)

module _ {ℓ} {S : Type ℓ} (muxrpc : S → Fcall → S × Option Fcall) where
  unfoldable pub do_fcall : S → Fcall → S × Option Fcall
  do_fcall s fcall = let (s1, ret) = muxrpc s fcall in (s1, accept fcall ret)

  -- `got` are the bytes that are in `buf`; the result is `none` for -1.
  unfoldable pub pread_loop : ℕ → S → Cfid → Bytes → ℕ → ℕ → Option (S × Option Bytes)
  pread_loop zero s f got count offset = none
  pread_loop (suc rounds) s f got count offset =
      let n = smaller (count - length got) f.iounit in
      let (s1, ret) = do_fcall s (read_request f offset n) in
      let onward : Option (S × Option Bytes) = elim (piece n ret) [
        | none ↦ some (s1, none)
        | some bs ↦
            let again = pread_loop rounds s1 f (got ++ bs) count (offset + length bs) in
            if ltb (length bs) n then some (s1, some (got ++ bs)) else again
      ] in
      if ltb (length got) count then onward else some (s, some got)

  unfoldable pub pread : ℕ → S → Cfid → ℕ → ℕ → Option (S × Option Bytes)
  pread rounds s f count offset = pread_loop rounds s f [] count offset

  unfoldable pub read : ℕ → S → Cfid → ℕ → Option (S × Cfid × Option Bytes)
  read rounds s f count = Option.map (after_read f) (pread rounds s f count f.offset)

  -- The test behind an answer reads the count of the call, not of the answer.
  unfoldable pub pwrite_loop : ℕ → S → Cfid → Bytes → ℕ → Option (S × Cfid × Option ℕ)
  pwrite_loop zero s f buf len = none
  pwrite_loop (suc rounds) s f buf len =
      let count = length buf in
      let n = smaller (count - len) f.iounit in
      let fcall = write_request f n (read_at buf len n) in
      let (s1, ret) = do_fcall s fcall in
      elim ret [
        | none ↦ some (s1, f, none)
        | some r ↦
            let f1 = record f { offset = f.offset + r.count } in
            let done = some (s1, f1, some (len + r.count)) in
            let again = pwrite_loop rounds s1 f1 buf (len + r.count) in
            if ltb fcall.count n then done else (if ltb (len + r.count) count then again else done)
      ]

  -- `offset` is not looked at.
  unfoldable pub pwrite : ℕ → S → Cfid → Bytes → ℕ → Option (S × Cfid × Option ℕ)
  pwrite rounds s f buf offset = pwrite_loop rounds s f buf 0

  unfoldable pub write : ℕ → S → Cfid → Bytes → Option (S × Cfid × Option ℕ)
  write rounds s f buf = Option.map after_write (pwrite rounds s f buf f.offset)
