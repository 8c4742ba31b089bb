-- ===== src/Stat.antt =====
-- Directory entries: MIXP_STAT of include/9p-mixp/stat.h, libmixp/stat.c, mixp_pstat of
-- libmixp/convert.c, and mixp_stat_sizeof of libmixp/message.c.
pub mod Layout
pub mod RoundTrip
use libmixp.Base.{ℕ, ◌+◌, ◌-◌, ◌*◌, ◌%◌, ◌^◌, Bool, true, false, Option, none, some, []}
use libmixp.Convert.{Message, msg_pack, msg_unpack, Mode, pu16, pu32, pu64}
use libmixp.Compound.{Str, strlen, pstring, Qid, pqid}

pub record Stat : Type 0 where
  pub type : ℕ
  pub dev : ℕ
  pub qid : Qid
  pub mode : ℕ
  pub atime : ℕ
  pub mtime : ℕ
  pub length : ℕ
  pub name : Str
  pub uid : Str
  pub gid : Str
  pub muid : Str

unfoldable pub clear : Stat → Stat
clear st = record st { name = none; uid = none; gid = none; muid = none }

-- SString: the length word and the characters
abbrev pub string_size : Str → ℕ
string_size s = 2 + strlen s

unfoldable pub stat_sizeof : Stat → ℕ
stat_sizeof st =
    2
    + 2
    + 4
    + (1 + 4 + 8)
    + 3 * 4
    + 8
    + string_size st.name
    + string_size st.uid
    + string_size st.gid
    + string_size st.muid

-- `strdup("")` for NULL
unfoldable pub fix_null : Str → Str
fix_null none = some []
fix_null (some bs) = some bs

-- What goes into `size` before it is packed: an `unsigned short`. On reading it is not set, and the
-- load does not look at it.
unfoldable pub size_before : Mode → Stat → ℕ
size_before msg_pack stat = (stat_sizeof stat - 2) % 2 ^ 16
size_before msg_unpack stat = 0

unfoldable pub pstat_fields : Message → Stat → Message × Stat
pstat_fields m stat =
    let (m0, size) = pu16 m (size_before m.mode stat) in
    let (m1, type) = pu16 m0 stat.type in
    let (m2, dev) = pu32 m1 stat.dev in
    let (m3, qid) = pqid m2 stat.qid in
    let (m4, mode) = pu32 m3 stat.mode in
    let (m5, atime) = pu32 m4 stat.atime in
    let (m6, mtime) = pu32 m5 stat.mtime in
    let (m7, length) = pu64 m6 stat.length in
    let (m8, name) = pstring m7 stat.name in
    let (m9, uid) = pstring m8 stat.uid in
    let (m10, gid) = pstring m9 stat.gid in
    let (m11, muid) = pstring m10 stat.muid in
    (
      m11,
      record {
        type = type;
        dev = dev;
        qid = qid;
        mode = mode;
        atime = atime;
        mtime = mtime;
        length = length;
        name = fix_null name;
        uid = fix_null uid;
        gid = fix_null gid;
        muid = fix_null muid;
      },
    )

-- The test is `false` for the return value -1 and `true` for 0.
unfoldable pub pstat : Message → Option Stat → Message × Option Stat × Bool
pstat m none = (m, none, false)
pstat m (some stat) = let (m1, read) = pstat_fields m stat in (m1, some read, true)
