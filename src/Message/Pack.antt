-- ===== src/Message/Pack.antt =====
-- In the mode MsgPack `ixp_pfcall` writes the layout of `Wire`, and leaves the fcall alone.
use libmixp.Base.{◌%◌, ◌^◌, ◌≤◌, ◌≡◌, refl, List, [], ◌∷◌, Bytes, padded}
use libmixp.Convert.{Message, msg_pack, le8, le16, le32, le64}
use libmixp.Convert.Emit.{emit, emits, pu8-pack, pu16-pack, pu32-pack, pu64-pack, psize-pack}
use libmixp.Compound.{bytes_of}
use libmixp.Compound.Chunks.{str_chunks, names_chunks, qid_chunks}
use libmixp.Compound.Pack.{pdata-pack, pstring-pack, pqid-pack, pstrings-pack, pqids-pack}
use libmixp.Fcall.{
  Fcall, FcallType, fcall_type, t_version, r_version, t_auth, r_auth, t_attach, r_attach, r_error,
  t_flush, t_walk, r_walk, t_open, r_open, t_create, r_create, t_read, r_read, t_write, r_write,
  t_clunk, r_clunk, t_remove, t_stat, r_stat, t_wstat, unhandled,
}
use libmixp.Message.{
  pfid, pversion, pauth, popened, ptransfer, pcount, poffset, pstat_block, pwalk, pcreate, pmode,
  pbody, pfcall,
}
use libmixp.Message.Wire.{wire, IsPackable}

module _ (m : Message) (f : Fcall) (packing : m.mode ≡ msg_pack) where
  pfid-pack : pfid m f ≡ (emit m (le32 f.fid), f)
  unfolding pfid
  pfid-pack = rw (pu32-pack m f.fid packing)

  pversion-pack : pversion m f ≡ (emits m (le32 f.msize ∷ str_chunks f.version []), f)
  unfolding pversion emits emit
  pversion-pack = rw (pu32-pack m f.msize packing, pstring-pack (emit m _) packing f.version)

  pauth-pack : pauth m f ≡ (emits m (le32 f.afid ∷ str_chunks f.uname (str_chunks f.aname [])), f)
  unfolding pauth emits emit
  pauth-pack = rw (
    pu32-pack m f.afid packing,
    pstring-pack (emit m (le32 f.afid)) packing f.uname,
    pstring-pack (emits (emit m (le32 f.afid)) (str_chunks f.uname [])) packing f.aname,
  )

  popened-pack : popened m f ≡ (emits m (qid_chunks f.qid (le32 (f.iounit % 2 ^ 32) ∷ [])), f)
  unfolding popened emits emit
  popened-pack =
      rw (pqid-pack m packing f.qid, psize-pack (emits m (qid_chunks f.qid [])) f.iounit packing)

  ptransfer-pack :
      ptransfer m f
      ≡ (emits m (le32 (f.count % 2 ^ 32) ∷ padded (f.count % 2 ^ 32) (bytes_of f.payload) ∷ []), f)
  unfolding ptransfer emits emit
  ptransfer-pack = rw (
    psize-pack m f.count packing,
    pdata-pack (emit m (le32 (f.count % 2 ^ 32))) packing f.payload (f.count % 2 ^ 32),
  )

  pcount-pack : pcount m f ≡ (emit m (le32 (f.count % 2 ^ 32)), f)
  unfolding pcount
  pcount-pack = rw (psize-pack m f.count packing)

  poffset-pack : poffset m f ≡ (emit m (le64 f.offset), f)
  unfolding poffset
  poffset-pack = rw (pu64-pack m f.offset packing)

  pstat_block-pack :
      pstat_block m f ≡ (emits m (le16 f.nstat ∷ padded f.nstat (bytes_of f.stat) ∷ []), f)
  unfolding pstat_block emits emit
  pstat_block-pack =
      rw (pu16-pack m f.nstat packing, pdata-pack (emit m (le16 f.nstat)) packing f.stat f.nstat)

  pwalk-pack :
      f.nwname ≤ 16
      → pwalk m f
        ≡ (emits m (le32 f.newfid ∷ le16 f.nwname ∷ names_chunks f.nwname 0 f.wname []), f)
  unfolding pwalk emits emit
  pwalk-pack few = rw (
    pu32-pack m f.newfid packing,
    pstrings-pack (emit m (le32 f.newfid)) packing f.nwname few f.wname,
  )

  pcreate-pack : pcreate m f ≡ (emits m (str_chunks f.name (le32 f.perm ∷ le8 f.mode ∷ [])), f)
  unfolding pcreate emits emit
  pcreate-pack = rw (
    pstring-pack m packing f.name,
    pu32-pack (emits m (str_chunks f.name [])) f.perm packing,
    pu8-pack (emit (emits m (str_chunks f.name [])) (le32 f.perm)) f.mode packing,
  )

  pmode-pack : pmode m f ≡ (emit m (le8 f.mode), f)
  unfolding pmode
  pmode-pack = rw (pu8-pack m f.mode packing)

module _ (f : Fcall) where
  pub pbody-pack :
      (t : FcallType) (m : Message)
      → m.mode ≡ msg_pack
      → IsPackable t f
      → pbody t m f ≡ (emits m (wire t f), f)
  unfolding pbody emits emit
  pbody-pack t_version m packing few = pversion-pack m f packing
  pbody-pack r_version m packing few = pversion-pack m f packing
  pbody-pack t_auth m packing few = pauth-pack m f packing
  pbody-pack r_auth m packing few = rw (pqid-pack m packing f.aqid)
  pbody-pack r_attach m packing few = rw (pqid-pack m packing f.qid)
  pbody-pack t_attach m packing few =
      rw (pfid-pack m f packing, pauth-pack (emit m (le32 f.fid)) f packing)
  pbody-pack r_error m packing few = rw (pstring-pack m packing f.ename)
  pbody-pack t_flush m packing few = rw (pu16-pack m f.oldtag packing)
  pbody-pack t_walk m packing few =
      rw (pfid-pack m f packing, pwalk-pack (emit m (le32 f.fid)) f packing few)
  pbody-pack r_walk m packing few = rw (pqids-pack m packing f.nwqid few f.wqid)
  pbody-pack t_open m packing few =
      rw (pfid-pack m f packing, pmode-pack (emit m (le32 f.fid)) f packing)
  pbody-pack r_open m packing few = popened-pack m f packing
  pbody-pack r_create m packing few = popened-pack m f packing
  pbody-pack t_create m packing few =
      rw (pfid-pack m f packing, pcreate-pack (emit m (le32 f.fid)) f packing)
  pbody-pack t_read m packing few = rw (
    pfid-pack m f packing,
    poffset-pack (emit m (le32 f.fid)) f packing,
    pcount-pack (emit (emit m (le32 f.fid)) (le64 f.offset)) f packing,
  )
  pbody-pack r_read m packing few = ptransfer-pack m f packing
  pbody-pack t_write m packing few = rw (
    pfid-pack m f packing,
    poffset-pack (emit m (le32 f.fid)) f packing,
    ptransfer-pack (emit (emit m (le32 f.fid)) (le64 f.offset)) f packing,
  )
  pbody-pack r_write m packing few = pcount-pack m f packing
  pbody-pack r_clunk m packing few = pfid-pack m f packing
  pbody-pack t_clunk m packing few = pfid-pack m f packing
  pbody-pack t_remove m packing few = pfid-pack m f packing
  pbody-pack t_stat m packing few = pfid-pack m f packing
  pbody-pack r_stat m packing few = pstat_block-pack m f packing
  pbody-pack t_wstat m packing few =
      rw (pfid-pack m f packing, pstat_block-pack (emit m (le32 f.fid)) f packing)
  pbody-pack unhandled m packing few = refl

-- The pieces of a whole message, behind its size.
abbrev pub message_wire : Fcall → List Bytes
message_wire f = le8 f.type ∷ le16 f.tag ∷ wire (fcall_type f.type) f

pub pfcall-pack :
    (m : Message) (f : Fcall)
    → m.mode ≡ msg_pack
    → IsPackable (fcall_type f.type) f
    → pfcall m f ≡ (emits m (message_wire f), f)
unfolding pfcall emits emit
pfcall-pack m f packing few =
    let m2 = emit (emit m (le8 f.type)) (le16 f.tag) in
    rw (
      pu8-pack m f.type packing,
      pu16-pack (emit m (le8 f.type)) f.tag packing,
      pbody-pack f (fcall_type f.type) m2 packing few,
    )
