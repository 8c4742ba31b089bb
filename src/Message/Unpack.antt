-- ===== src/Message/Unpack.antt =====
-- In the mode MsgUnpack `ixp_pfcall` reads back what stands in the layout of `Wire`.
use libmixp.Base.{
  ℕ, ◌%◌, ◌^◌, ◌≤◌, ◌<◌, ◌≡◌, refl, List, ◌∷◌, ◌++◌, Bytes, length, padded, padded-length, arith,
}
use libmixp.Convert.{Message, advance, le8, le16, le32, le64}
use libmixp.Convert.Emit.{concat}
use libmixp.Convert.Load.{
  Ready, IsLoadable, pu8-unpack, pu16-unpack, pu32-unpack, pu64-unpack, psize-unpack,
}
use libmixp.Compound.{Str, bytes_of, pdata}
use libmixp.Compound.Chunks.{str_chunks, names_chunks, qid_chunks, IsText, AllText, IsQid}
use libmixp.Compound.Unpack.{
  IsBacked, past, past_names, past_qids, copy_names, pdata-unpack, pstring-unpack, pqid-unpack,
  pstrings-unpack,
}
use libmixp.Fcall.{Fcall}
use libmixp.Message.{
  pfid, pversion, pauth, popened, ptransfer, pcount, poffset, pstat_block, pwalk, pcreate, pmode,
}
use libmixp.Message.Wire.{IsBlock}

-- A block whose length was sent before it.
pblock-unpack :
    (m : Message) (x s : Str) (n k : ℕ) (cs : List Bytes)
    → IsBacked m
    → k ≡ n
    → IsBlock s n
    → Ready m (concat (padded k (bytes_of s) ∷ cs))
    → (pdata m x k ≡ (advance m n, s)) × Ready (advance m n) (concat cs)
pblock-unpack m x s n k cs backed same b r =
    let bs = bytes_of s in
    let sized : k ≡ length bs = omega (arith, b.exact) in
    let whole : Ready m (bs ++ concat cs) = rw (sized, padded-length bs) at r in
    let (e1, r1) = pdata-unpack m x bs (concat cs) backed whole in
    rw (sized, b.exact) (rw e1 (cc (b.pointer)), r1)

module _ (m : Message) (f g : Fcall) (cs : List Bytes) where
  pub pfid-unpack :
      f.fid < 2 ^ 32
      → Ready m (concat (le32 f.fid ∷ cs))
      → (pfid m g ≡ (advance m 4, record g { fid = f.fid })) × Ready (advance m 4) (concat cs)
  unfolding pfid
  pfid-unpack h r = let (e, r1) = pu32-unpack m f.fid g.fid (concat cs) h r in (rw e, r1)

  pub pversion-unpack :
      IsBacked m
      → (f.msize < 2 ^ 32) × IsText f.version
      → Ready m (concat (le32 f.msize ∷ str_chunks f.version cs))
      → (pversion m g
          ≡ (past (advance m 4) f.version, record g { msize = f.msize; version = f.version }))
        × Ready (past (advance m 4) f.version) (concat cs)
  unfolding pversion
  pversion-unpack backed (h, t) r =
      let (e1, r1) = pu32-unpack m f.msize g.msize (concat (str_chunks f.version cs)) h r in
      let (e2, r2) = pstring-unpack (advance m 4) g.version f.version cs backed t r1 in
      (rw (e1, e2), r2)

  pub pauth-unpack :
      IsBacked m
      → (f.afid < 2 ^ 32) × IsText f.uname × IsText f.aname
      → Ready m (concat (le32 f.afid ∷ str_chunks f.uname (str_chunks f.aname cs)))
      → (pauth m g ≡ (
        past (past (advance m 4) f.uname) f.aname,
        record g { afid = f.afid; uname = f.uname; aname = f.aname },
      ))
        × Ready (past (past (advance m 4) f.uname) f.aname) (concat cs)
  unfolding pauth
  pauth-unpack backed (h, t, u) r =
      let more = str_chunks f.aname cs in
      let (e1, r1) = pu32-unpack m f.afid g.afid (concat (str_chunks f.uname more)) h r in
      let (e2, r2) = pstring-unpack (advance m 4) g.uname f.uname more backed t r1 in
      let (e3, r3) = pstring-unpack (past (advance m 4) f.uname) g.aname f.aname cs backed u r2 in
      (rw (e1, e2, e3), r3)

  pub popened-unpack :
      IsQid f.qid × (f.iounit < 2 ^ 32)
      → Ready m (concat (qid_chunks f.qid (le32 (f.iounit % 2 ^ 32) ∷ cs)))
      → (popened m g ≡ (
        advance (past_qids 1 m) 4,
        record g { qid = record f.qid { dir_type = g.qid.dir_type }; iounit = f.iounit },
      ))
        × Ready (advance (past_qids 1 m) 4) (concat cs)
  unfolding popened
  popened-unpack (t, h) r =
      let (e1, r1) = pqid-unpack m g.qid f.qid (le32 (f.iounit % 2 ^ 32) ∷ cs) t r in
      let (e2, r2) = psize-unpack (past_qids 1 m) f.iounit g.iounit (concat cs) h r1 in
      (rw (e1, e2), r2)

  pub ptransfer-unpack :
      IsBacked m
      → (f.count < 2 ^ 32) × IsBlock f.payload f.count
      → Ready m
          (concat (le32 (f.count % 2 ^ 32) ∷ padded (f.count % 2 ^ 32) (bytes_of f.payload) ∷ cs))
      → (ptransfer m g
          ≡ (advance (advance m 4) f.count, record g { count = f.count; payload = f.payload }))
        × Ready (advance (advance m 4) f.count) (concat cs)
  unfolding ptransfer
  ptransfer-unpack backed (h, b) r =
      let k = f.count % 2 ^ 32 in
      let rest = padded k (bytes_of f.payload) ∷ cs in
      let (e1, r1) = psize-unpack m f.count g.count (concat rest) h r in
      let (e2, r2) =
        pblock-unpack (advance m 4) g.payload f.payload f.count k cs backed (omega arith) b r1 in
      (rw (e1, e2), r2)

  pub pcount-unpack :
      f.count < 2 ^ 32
      → Ready m (concat (le32 (f.count % 2 ^ 32) ∷ cs))
      → (pcount m g ≡ (advance m 4, record g { count = f.count })) × Ready (advance m 4) (concat cs)
  unfolding pcount
  pcount-unpack h r = let (e, r1) = psize-unpack m f.count g.count (concat cs) h r in (rw e, r1)

  pub poffset-unpack :
      IsLoadable f.offset
      → Ready m (concat (le64 f.offset ∷ cs))
      → (poffset m g ≡ (advance m 8, record g { offset = f.offset }))
        × Ready (advance m 8) (concat cs)
  unfolding poffset
  poffset-unpack h r = let (e, r1) = pu64-unpack m f.offset g.offset (concat cs) h r in (rw e, r1)

  pub pstat_block-unpack :
      IsBacked m
      → (f.nstat < 2 ^ 16) × IsBlock f.stat f.nstat
      → Ready m (concat (le16 f.nstat ∷ padded f.nstat (bytes_of f.stat) ∷ cs))
      → (pstat_block m g
          ≡ (advance (advance m 2) f.nstat, record g { nstat = f.nstat; stat = f.stat }))
        × Ready (advance (advance m 2) f.nstat) (concat cs)
  unfolding pstat_block
  pstat_block-unpack backed (h, b) r =
      let rest = padded f.nstat (bytes_of f.stat) ∷ cs in
      let (e1, r1) = pu16-unpack m f.nstat g.nstat (concat rest) h r in
      let (e2, r2) =
        pblock-unpack (advance m 2) g.stat f.stat f.nstat f.nstat cs backed refl b r1 in
      (rw (e1, e2), r2)

  pub pwalk-unpack :
      IsBacked m
      → (f.newfid < 2 ^ 32) × (f.nwname ≤ 16) × AllText f.nwname 0 f.wname
      → Ready m (concat (le32 f.newfid ∷ le16 f.nwname ∷ names_chunks f.nwname 0 f.wname cs))
      → (pwalk m g ≡ (
        past_names f.nwname 0 f.wname (advance (advance m 4) 2),
        record g {
          newfid = f.newfid;
          nwname = f.nwname;
          wname = copy_names f.nwname 0 f.wname g.wname;
        },
      ))
        × Ready (past_names f.nwname 0 f.wname (advance (advance m 4) 2)) (concat cs)
  unfolding pwalk
  pwalk-unpack backed (h, few, ts) r =
      let rest = le16 f.nwname ∷ names_chunks f.nwname 0 f.wname cs in
      let (e1, r1) = pu32-unpack m f.newfid g.newfid (concat rest) h r in
      let (e2, r2) =
        pstrings-unpack (advance m 4) g.nwname f.nwname f.wname g.wname cs few backed ts r1 in
      (rw (e1, e2), r2)

  pub pcreate-unpack :
      IsBacked m
      → IsText f.name × (f.perm < 2 ^ 32) × (f.mode < 2 ^ 8)
      → Ready m (concat (str_chunks f.name (le32 f.perm ∷ le8 f.mode ∷ cs)))
      → (pcreate m g ≡ (
        advance (advance (past m f.name) 4) 1,
        record g { name = f.name; perm = f.perm; mode = f.mode },
      ))
        × Ready (advance (advance (past m f.name) 4) 1) (concat cs)
  unfolding pcreate
  pcreate-unpack backed (t, h, k) r =
      let (e1, r1) = pstring-unpack m g.name f.name (le32 f.perm ∷ le8 f.mode ∷ cs) backed t r in
      let (e2, r2) = pu32-unpack (past m f.name) f.perm g.perm (concat (le8 f.mode ∷ cs)) h r1 in
      let (e3, r3) = pu8-unpack (advance (past m f.name) 4) f.mode g.mode (concat cs) k r2 in
      (rw (e1, e2, e3), r3)

  pub pmode-unpack :
      f.mode < 2 ^ 8
      → Ready m (concat (le8 f.mode ∷ cs))
      → (pmode m g ≡ (advance m 1, record g { mode = f.mode })) × Ready (advance m 1) (concat cs)
  unfolding pmode
  pmode-unpack h r = let (e, r1) = pu8-unpack m f.mode g.mode (concat cs) h r in (rw e, r1)
