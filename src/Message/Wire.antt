-- ===== src/Message/Wire.antt =====
-- The 9P2000 layout of each message type, with the fields that it carries and the values that it can
-- carry: what libmixp/message.c is compared with.
use libmixp.Base.{ℕ, ◌%◌, ◌^◌, ◌≤◌, ◌<◌, ◌≡◌, some, List, [], ◌∷◌, Bytes, length, padded}
use libmixp.Convert.{le8, le16, le32, le64}
use libmixp.Convert.Load.{IsLoadable}
use libmixp.Compound.{Str, bytes_of}
use libmixp.Compound.Chunks.{
  str_chunks, names_chunks, qid_chunks, qids_chunks, IsText, AllText, IsQid, AllQid,
}
use libmixp.Compound.Unpack.{copy_names, copy_qids}
use libmixp.Fcall.{
  Fcall, FcallType, t_version, r_version, t_auth, r_auth, t_attach, r_attach, r_error, t_flush,
  t_walk, r_walk, t_open, r_open, t_create, r_create, t_read, r_read, t_write, r_write, t_clunk,
  r_clunk, t_remove, t_stat, r_stat, t_wstat, unhandled,
}

abbrev pub size_chunk : ℕ → Bytes
size_chunk n = le32 (n % 2 ^ 32)

abbrev pub auth_wire : Fcall → List Bytes
auth_wire f = le32 f.afid ∷ str_chunks f.uname (str_chunks f.aname [])

abbrev pub transfer_wire : Fcall → List Bytes
transfer_wire f = size_chunk f.count ∷ padded (f.count % 2 ^ 32) (bytes_of f.payload) ∷ []

abbrev pub stat_wire : Fcall → List Bytes
stat_wire f = le16 f.nstat ∷ padded f.nstat (bytes_of f.stat) ∷ []

-- The body of a message, behind its size, type and tag.
abbrev pub wire : FcallType → Fcall → List Bytes
wire t_version f = le32 f.msize ∷ str_chunks f.version []
wire r_version f = le32 f.msize ∷ str_chunks f.version []
wire t_auth f = auth_wire f
wire r_auth f = qid_chunks f.aqid []
wire r_attach f = qid_chunks f.qid []
wire t_attach f = le32 f.fid ∷ auth_wire f
wire r_error f = str_chunks f.ename []
wire t_flush f = le16 f.oldtag ∷ []
wire t_walk f = le32 f.fid ∷ le32 f.newfid ∷ le16 f.nwname ∷ names_chunks f.nwname 0 f.wname []
wire r_walk f = le16 f.nwqid ∷ qids_chunks f.nwqid 0 f.wqid []
wire t_open f = le32 f.fid ∷ le8 f.mode ∷ []
wire r_open f = qid_chunks f.qid (size_chunk f.iounit ∷ [])
wire r_create f = qid_chunks f.qid (size_chunk f.iounit ∷ [])
wire t_create f = le32 f.fid ∷ str_chunks f.name (le32 f.perm ∷ le8 f.mode ∷ [])
wire t_read f = le32 f.fid ∷ le64 f.offset ∷ size_chunk f.count ∷ []
wire r_read f = transfer_wire f
wire t_write f = le32 f.fid ∷ le64 f.offset ∷ transfer_wire f
wire r_write f = size_chunk f.count ∷ []
wire r_clunk f = le32 f.fid ∷ []
wire t_clunk f = le32 f.fid ∷ []
wire t_remove f = le32 f.fid ∷ []
wire t_stat f = le32 f.fid ∷ []
wire r_stat f = stat_wire f
wire t_wstat f = le32 f.fid ∷ stat_wire f
wire unhandled f = []

-- `g` with the fields that the type carries taken from `f`.
abbrev pub carried : FcallType → Fcall → Fcall → Fcall
carried t_version f g = record g { msize = f.msize; version = f.version }
carried r_version f g = record g { msize = f.msize; version = f.version }
carried t_auth f g = record g { afid = f.afid; uname = f.uname; aname = f.aname }
carried r_auth f g = record g { aqid = record f.aqid { dir_type = g.aqid.dir_type } }
carried r_attach f g = record g { qid = record f.qid { dir_type = g.qid.dir_type } }
carried t_attach f g = record g { fid = f.fid; afid = f.afid; uname = f.uname; aname = f.aname }
carried r_error f g = record g { ename = f.ename }
carried t_flush f g = record g { oldtag = f.oldtag }
carried t_walk f g = record g {
  fid = f.fid;
  newfid = f.newfid;
  nwname = f.nwname;
  wname = copy_names f.nwname 0 f.wname g.wname;
}
carried r_walk f g = record g { nwqid = f.nwqid; wqid = copy_qids f.nwqid 0 f.wqid g.wqid }
carried t_open f g = record g { fid = f.fid; mode = f.mode }
carried r_open f g = record g {
  qid = record f.qid { dir_type = g.qid.dir_type };
  iounit = f.iounit;
}
carried r_create f g = record g {
  qid = record f.qid { dir_type = g.qid.dir_type };
  iounit = f.iounit;
}
carried t_create f g = record g { fid = f.fid; name = f.name; perm = f.perm; mode = f.mode }
carried t_read f g = record g { fid = f.fid; offset = f.offset; count = f.count }
carried r_read f g = record g { count = f.count; payload = f.payload }
carried t_write f g = record g {
  fid = f.fid;
  offset = f.offset;
  count = f.count;
  payload = f.payload;
}
carried r_write f g = record g { count = f.count }
carried r_clunk f g = record g { fid = f.fid }
carried t_clunk f g = record g { fid = f.fid }
carried t_remove f g = record g { fid = f.fid }
carried t_stat f g = record g { fid = f.fid }
carried r_stat f g = record g { nstat = f.nstat; stat = f.stat }
carried t_wstat f g = record g { fid = f.fid; nstat = f.nstat; stat = f.stat }
carried unhandled f g = g

-- A block of `n` bytes.
pub record IsBlock (s : Str) (n : ℕ) : Type 0 where
  pub pointer : s ≡ some (bytes_of s)
  pub exact : n ≡ length (bytes_of s)

-- The values that come back: scalars in the range of their C types, offsets and qid paths that
-- `mixp_pu64_load` gives back, strings that the protocol can carry, at most 16 names or qids.
abbrev pub Carries : FcallType → Fcall → Type 0
Carries t_version f = (f.msize < 2 ^ 32) × IsText f.version
Carries r_version f = (f.msize < 2 ^ 32) × IsText f.version
Carries t_auth f = (f.afid < 2 ^ 32) × IsText f.uname × IsText f.aname
Carries r_auth f = IsQid f.aqid
Carries r_attach f = IsQid f.qid
Carries t_attach f = (f.fid < 2 ^ 32) × (f.afid < 2 ^ 32) × IsText f.uname × IsText f.aname
Carries r_error f = IsText f.ename
Carries t_flush f = f.oldtag < 2 ^ 16
Carries t_walk f =
    (f.fid < 2 ^ 32) × (f.newfid < 2 ^ 32) × (f.nwname ≤ 16) × AllText f.nwname 0 f.wname
Carries r_walk f = (f.nwqid ≤ 16) × AllQid f.nwqid 0 f.wqid
Carries t_open f = (f.fid < 2 ^ 32) × (f.mode < 2 ^ 8)
Carries r_open f = IsQid f.qid × (f.iounit < 2 ^ 32)
Carries r_create f = IsQid f.qid × (f.iounit < 2 ^ 32)
Carries t_create f = (f.fid < 2 ^ 32) × IsText f.name × (f.perm < 2 ^ 32) × (f.mode < 2 ^ 8)
Carries t_read f = (f.fid < 2 ^ 32) × IsLoadable f.offset × (f.count < 2 ^ 32)
Carries r_read f = (f.count < 2 ^ 32) × IsBlock f.payload f.count
Carries t_write f =
    (f.fid < 2 ^ 32) × IsLoadable f.offset × (f.count < 2 ^ 32) × IsBlock f.payload f.count
Carries r_write f = f.count < 2 ^ 32
Carries r_clunk f = f.fid < 2 ^ 32
Carries t_clunk f = f.fid < 2 ^ 32
Carries t_remove f = f.fid < 2 ^ 32
Carries t_stat f = f.fid < 2 ^ 32
Carries r_stat f = (f.nstat < 2 ^ 16) × IsBlock f.stat f.nstat
Carries t_wstat f = (f.fid < 2 ^ 32) × (f.nstat < 2 ^ 16) × IsBlock f.stat f.nstat
Carries unhandled f = Unit

-- At most 16 names or qids, the condition on writing alone.
abbrev pub IsPackable : FcallType → Fcall → Type 0
IsPackable t_walk f = f.nwname ≤ 16
IsPackable r_walk f = f.nwqid ≤ 16
IsPackable _ f = Unit
