-- ===== src/Fcall.antt =====
-- include/9p-mixp/fcall.h and msgs.h: a 9P message in memory, and what libmixp/message.c does with it
-- besides the transfer. The members of the union that have the same layout (`Tversion` and `Rversion`;
-- `Ropen`, `Rcreate` and `Rattach`; `Tauth` and `Tattach`; `Tcreate` and `Topen`; the four transfers;
-- the two stats) are one group of fields here; groups that overlap in memory are kept apart. The
-- block that the source calls `data` is the field `payload`.
use libmixp.Base.{
  ℕ, zero, suc, Option, none, some, List, [], ◌∷◌, ◌++◌, Bytes, length, replicate, take, get_elem?,
  ltb, ◌==◌, if◌then◌else◌,
}
use libmixp.Compound.{Str, strlen, Qid, zero_qid, max_welem}

pub record Fcall : Type 0 where
  pub type : ℕ
  pub tag : ℕ
  pub fid : ℕ
  -- Tversion, Rversion
  pub msize : ℕ
  pub version : Str
  -- Tflush
  pub oldtag : ℕ
  -- Rerror
  pub ename : Str
  -- Ropen, Rcreate, Rattach
  pub qid : Qid
  pub iounit : ℕ
  -- Rauth
  pub aqid : Qid
  -- Tauth, Tattach
  pub afid : ℕ
  pub uname : Str
  pub aname : Str
  -- Tcreate, Topen
  pub perm : ℕ
  pub name : Str
  pub mode : ℕ
  -- Twalk
  pub newfid : ℕ
  pub nwname : ℕ
  pub wname : List Str
  -- Rwalk
  pub nwqid : ℕ
  pub wqid : List Qid
  -- Twrite, Rwrite, Tread, Rread
  pub offset : ℕ
  pub count : ℕ
  pub payload : Str
  -- Twstat, Rstat
  pub nstat : ℕ
  pub stat : Str

-- `calloc(1, sizeof(MIXP_FCALL))`
abbrev pub blank : Fcall
blank = record {
  type = 0;
  tag = 0;
  fid = 0;
  msize = 0;
  version = none;
  oldtag = 0;
  ename = none;
  qid = zero_qid;
  iounit = 0;
  aqid = zero_qid;
  afid = 0;
  uname = none;
  aname = none;
  perm = 0;
  name = none;
  mode = 0;
  newfid = 0;
  nwname = 0;
  wname = replicate max_welem none;
  nwqid = 0;
  wqid = replicate max_welem zero_qid;
  offset = 0;
  count = 0;
  payload = none;
  nstat = 0;
  stat = none;
}

-- The message types that `ixp_pfcall` has a case for, and all others.
pub data FcallType : Type 0 where
  t_version r_version t_auth r_auth t_attach r_attach r_error t_flush t_walk r_walk : FcallType
  t_open r_open t_create r_create t_read r_read t_write r_write t_clunk r_clunk : FcallType
  t_remove t_stat r_stat t_wstat unhandled : FcallType

unfoldable pub fcall_type : ℕ → FcallType
fcall_type n =
    if n == 100
    then t_version
    else if n == 101
    then r_version
    else if n == 102
    then t_auth
    else if n == 103
    then r_auth
    else if n == 104
    then t_attach
    else if n == 105
    then r_attach
    else if n == 107
    then r_error
    else if n == 108
    then t_flush
    else if n == 110
    then t_walk
    else if n == 111
    then r_walk
    else if n == 112
    then t_open
    else if n == 113
    then r_open
    else if n == 114
    then t_create
    else if n == 115
    then r_create
    else if n == 116
    then t_read
    else if n == 117
    then r_read
    else if n == 118
    then t_write
    else if n == 119
    then r_write
    else if n == 120
    then t_clunk
    else if n == 121
    then r_clunk
    else if n == 122
    then t_remove
    else if n == 124
    then t_stat
    else if n == 125
    then r_stat
    else if n == 126
    then t_wstat
    else unhandled

free_as : FcallType → Fcall → Fcall
free_as r_stat f = record f { stat = none }
free_as r_read f = record f { payload = none }
free_as r_version f = record f { version = none }
free_as r_error f = record f { ename = none }
free_as _ f = f

-- The blocks of a received message that `mixp_fcall_free` gives back.
unfoldable pub fcall_free : Fcall → Fcall
unfolding free_as
fcall_free f = free_as (fcall_type f.type) f

-- `_dumpbuf` of the case P9_TWalk, which is filled whether or not it is printed.
abbrev pub dump_size : ℕ
dump_size = 65535

abbrev pub comma : Bytes
comma = 0x2c ∷ 0x20 ∷ []

abbrev pub quote : Bytes
quote = 0x22 ∷ []

-- The text of a name; `none` is a name behind the end of the array, or a NULL name.
unfoldable pub readable : Option Str → Option Bytes
readable none = none
readable (some none) = none
readable (some (some bs)) = some (take (strlen (some bs)) bs)

-- The calls of `strcat` for the name `i`.
unfoldable pub add_name : ℕ → Bytes → Bytes → Bytes
add_name i text dumped =
    let shown = quote ++ text ++ quote in dumped ++ (if i == 0 then shown else comma ++ shown)

-- `none` is a memory fault: a name that is not readable, or a full buffer.
unfoldable pub dump_names : ℕ → ℕ → List Str → Bytes → Option Bytes
dump_names zero i names dumped = some dumped
dump_names (suc n) i names dumped = elim (readable (get_elem? names i)) [
  | none ↦ none
  | some text ↦
      let longer = add_name i text dumped in
      let rest = dump_names n (suc i) names longer in
      if ltb (length longer) dump_size then rest else none
]

-- The print-outs of `ixp_pfcall`, as far as they can fault.
unfoldable pub dump : FcallType → Fcall → Option Bytes
dump t_walk f = dump_names f.nwname 0 f.wname []
dump _ f = some []
