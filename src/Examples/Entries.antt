-- ===== src/Examples/Entries.antt =====
-- `mixp_pstat` of libmixp/convert.c on one directory entry.
use libmixp.Base.{some, [], ◌∷◌, length, replicate}
use libmixp.Convert.{Message, msg_pack}
use libmixp.Stat.{Stat}

abbrev file : Stat
file = record {
  type = 0;
  dev = 0;
  qid = record { type = 0; version = 1; path = 77; dir_type = 0 };
  mode = 0o644;
  atime = 5;
  mtime = 6;
  length = 4096;
  name = some (b'c' ∷ b't' ∷ b'l' ∷ []);
  uid = some (b'u' ∷ []);
  gid = some (b'g' ∷ []);
  muid = some [];
}

abbrev page : Message
page = record { buf = replicate 64 0; pos = 3; end = 60; size = 64; mode = msg_pack }
