-- ===== src/Message.antt =====
-- libmixp/message.c: the transfer of an fcall to and from a buffer.
pub mod Wire
pub mod Pack
pub mod Unpack
pub mod Body
pub mod Frame
pub mod Fit
pub mod Names
pub mod RoundTrip
pub mod Walk
pub mod Arrival
use libmixp.Base.{ℕ, ◌+◌, ◌%◌, ◌^◌, Option, ltb, if◌then◌else◌}
use libmixp.Convert.{msg_pack, msg_unpack, Message, pu8, pu16, pu32, pu64, psize}
use libmixp.Compound.{pdata, pstring, pstrings, pqid, pqids}
use libmixp.Fcall.{
  Fcall, FcallType, fcall_type, dump, t_version, r_version, t_auth, r_auth, t_attach, r_attach,
  r_error, t_flush, t_walk, r_walk, t_open, r_open, t_create, r_create, t_read, r_read, t_write,
  r_write, t_clunk, r_clunk, t_remove, t_stat, r_stat, t_wstat, unhandled,
}
use mathlib.Core.Option

-- Cases that `ixp_pfcall` repeats.
unfoldable pub pfid : Message → Fcall → Message × Fcall
pfid m f = let (m1, fid) = pu32 m f.fid in (m1, record f { fid = fid })

unfoldable pub pversion : Message → Fcall → Message × Fcall
pversion m f =
    let (m1, msize) = pu32 m f.msize in
    let (m2, version) = pstring m1 f.version in (m2, record f { msize = msize; version = version })

-- `afid`, `uname` and `aname`
unfoldable pub pauth : Message → Fcall → Message × Fcall
pauth m f =
    let (m1, afid) = pu32 m f.afid in
    let (m2, uname) = pstring m1 f.uname in
    let (m3, aname) = pstring m2 f.aname in
    (m3, record f { afid = afid; uname = uname; aname = aname })

unfoldable pub popened : Message → Fcall → Message × Fcall
popened m f =
    let (m1, qid) = pqid m f.qid in
    let (m2, iounit) = psize m1 f.iounit in (m2, record f { qid = qid; iounit = iounit })

-- `unsigned int len` cuts the count to 32 bits.
unfoldable pub ptransfer : Message → Fcall → Message × Fcall
ptransfer m f =
    let (m1, count) = psize m f.count in
    let (m2, payload) = pdata m1 f.payload (count % 2 ^ 32) in
    (m2, record f { count = count; payload = payload })

unfoldable pub pcount : Message → Fcall → Message × Fcall
pcount m f = let (m1, count) = psize m f.count in (m1, record f { count = count })

unfoldable pub poffset : Message → Fcall → Message × Fcall
poffset m f = let (m1, offset) = pu64 m f.offset in (m1, record f { offset = offset })

unfoldable pub pstat_block : Message → Fcall → Message × Fcall
pstat_block m f =
    let (m1, nstat) = pu16 m f.nstat in
    let (m2, stat) = pdata m1 f.stat nstat in (m2, record f { nstat = nstat; stat = stat })

unfoldable pub pwalk : Message → Fcall → Message × Fcall
pwalk m f =
    let (m1, newfid) = pu32 m f.newfid in
    let (m2, nwname, wname) = pstrings m1 f.nwname f.wname in
    (m2, record f { newfid = newfid; nwname = nwname; wname = wname })

unfoldable pub pcreate : Message → Fcall → Message × Fcall
pcreate m f =
    let (m1, name) = pstring m f.name in
    let (m2, perm) = pu32 m1 f.perm in
    let (m3, mode) = pu8 m2 f.mode in (m3, record f { name = name; perm = perm; mode = mode })

unfoldable pub pmode : Message → Fcall → Message × Fcall
pmode m f = let (m1, mode) = pu8 m f.mode in (m1, record f { mode = mode })

-- The `switch` of `ixp_pfcall`.
unfoldable pub pbody : FcallType → Message → Fcall → Message × Fcall
pbody t_version m f = pversion m f
pbody r_version m f = pversion m f
pbody t_auth m f = pauth m f
pbody r_auth m f = let (m1, aqid) = pqid m f.aqid in (m1, record f { aqid = aqid })
pbody r_attach m f = let (m1, qid) = pqid m f.qid in (m1, record f { qid = qid })
pbody t_attach m f = let (m1, f1) = pfid m f in pauth m1 f1
pbody r_error m f = let (m1, ename) = pstring m f.ename in (m1, record f { ename = ename })
pbody t_flush m f = let (m1, oldtag) = pu16 m f.oldtag in (m1, record f { oldtag = oldtag })
pbody t_walk m f = let (m1, f1) = pfid m f in pwalk m1 f1
pbody r_walk m f =
    let (m1, nwqid, wqid) = pqids m f.nwqid f.wqid in (m1, record f { nwqid = nwqid; wqid = wqid })
pbody t_open m f = let (m1, f1) = pfid m f in pmode m1 f1
pbody r_open m f = popened m f
pbody r_create m f = popened m f
pbody t_create m f = let (m1, f1) = pfid m f in pcreate m1 f1
pbody t_read m f = let (m1, f1) = pfid m f in let (m2, f2) = poffset m1 f1 in pcount m2 f2
pbody r_read m f = ptransfer m f
pbody t_write m f = let (m1, f1) = pfid m f in let (m2, f2) = poffset m1 f1 in ptransfer m2 f2
pbody r_write m f = pcount m f
pbody r_clunk m f = pfid m f
pbody t_clunk m f = pfid m f
pbody t_remove m f = pfid m f
pbody t_stat m f = pfid m f
pbody r_stat m f = pstat_block m f
pbody t_wstat m f = let (m1, f1) = pfid m f in pstat_block m1 f1
pbody unhandled m f = (m, f)

unfoldable pub pfcall : Message → Fcall → Message × Fcall
pfcall m f =
    let (m1, type) = pu8 m f.type in
    let (m2, tag) = pu16 m1 f.tag in
    pbody (fcall_type type) m2 (record f { type = type; tag = tag })

-- What `mixp_fcall2msg` does behind `ixp_pfcall`: the size goes into the first four bytes.
unfoldable pub put_size : Message → Fcall → Message × Fcall × ℕ
put_size m f =
    let size = m.pos in
    let (m1, _) = psize (record m { pos = 0; end = m.pos }) size in
    if ltb m.end m.pos then (m, f, 0) else (record m1 { pos = 0 }, f, size)

-- `none` if the print-out faults, or else the new message, the fcall, and the size, which is 0 if
-- the fcall does not fit.
unfoldable pub fcall2msg : Message → Fcall → Option (Message × Fcall × ℕ)
fcall2msg m f =
    let (m1, f1) = pfcall (record m { end = m.size; pos = 4; mode = msg_pack }) f in
    Option.map (λ _. put_size m1 f1) (dump (fcall_type f1.type) f1)

unfoldable pub msg2fcall : Message → Fcall → Option (Message × Fcall × ℕ)
msg2fcall m f =
    let (m1, f1) = pfcall (record m { pos = 4; mode = msg_unpack }) f in
    Option.map (λ _. (m1, f1, if ltb m1.end m1.pos then 0 else m1.pos))
      (dump (fcall_type f1.type) f1)
