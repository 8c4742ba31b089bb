-- ===== src/Message/Body.antt =====
-- Every case of the `switch` of `ixp_pfcall`, read back from a message that holds its layout.
use libmixp.Base.{◌^◌, ◌<◌, ◌≡◌, refl, [], ◌∷◌}
use libmixp.Convert.{Message, advance, le8, le16, le32, le64}
use libmixp.Convert.Emit.{concat}
use libmixp.Convert.Load.{Ready, at_end, pu8-unpack, pu16-unpack}
use libmixp.Compound.Chunks.{str_chunks, names_chunks}
use libmixp.Compound.Unpack.{
  IsBacked, past_names-rewind, past_qids-rewind, pstring-unpack, pqid-unpack, pqids-unpack,
}
use libmixp.Fcall.{
  Fcall, FcallType, fcall_type, t_version, r_version, t_auth, r_auth, t_attach, r_attach, r_error,
  t_flush, t_walk, r_walk, t_open, r_open, t_create, r_create, t_read, r_read, t_write, r_write,
  t_clunk, r_clunk, t_remove, t_stat, r_stat, t_wstat, unhandled,
}
use libmixp.Message.{pbody, pfcall}
use libmixp.Message.Wire.{wire, carried, Carries, auth_wire, transfer_wire, stat_wire, size_chunk}
use libmixp.Message.Pack.{message_wire}
use libmixp.Message.Unpack.{
  pfid-unpack, pversion-unpack, pauth-unpack, popened-unpack, ptransfer-unpack, pcount-unpack,
  poffset-unpack, pstat_block-unpack, pwalk-unpack, pcreate-unpack, pmode-unpack,
}

-- The messages that carry a fid first.
abbrev with_fid : Fcall → Fcall → Fcall
with_fid f g = record g { fid = f.fid }

module _ (f g : Fcall) where
  pub pbody-unpack :
      (t : FcallType) (m : Message)
      → IsBacked m
      → Carries t f
      → Ready m (concat (wire t f))
      → pbody t m g ≡ (record m { pos = m.end }, carried t f g)
  unfolding pbody
  pbody-unpack t_version m backed h r =
      let (e, r1) = pversion-unpack m f g [] backed h r in at_end _ m _ _ e refl r1
  pbody-unpack r_version m backed h r =
      let (e, r1) = pversion-unpack m f g [] backed h r in at_end _ m _ _ e refl r1
  pbody-unpack t_auth m backed h r =
      let (e, r1) = pauth-unpack m f g [] backed h r in at_end _ m _ _ e refl r1
  pbody-unpack r_auth m backed h r =
      let (e, r1) = pqid-unpack m g.aqid f.aqid [] h r in at_end _ m _ _ (rw e) refl r1
  pbody-unpack r_attach m backed h r =
      let (e, r1) = pqid-unpack m g.qid f.qid [] h r in at_end _ m _ _ (rw e) refl r1
  pbody-unpack t_attach m backed (h, k, t, u) r =
      let (e1, r1) = pfid-unpack m f g (auth_wire f) h r in
      let (e2, r2) = pauth-unpack (advance m 4) f (with_fid f g) [] backed (k, t, u) r1 in
      at_end _ m _ _ (rw (e1, e2)) refl r2
  pbody-unpack r_error m backed h r =
      let (e, r1) = pstring-unpack m g.ename f.ename [] backed h r in at_end _ m _ _ (rw e) refl r1
  pbody-unpack t_flush m backed h r =
      let (e, r1) = pu16-unpack m f.oldtag g.oldtag [] h r in at_end _ m _ _ (rw e) refl r1
  pbody-unpack t_walk m backed (h, k, few, ts) r =
      let (e1, r1) =
        pfid-unpack m f g (le32 f.newfid ∷ le16 f.nwname ∷ names_chunks f.nwname 0 f.wname []) h
          r in
      let (e2, r2) = pwalk-unpack (advance m 4) f (with_fid f g) [] backed (k, few, ts) r1 in
      at_end _ m _ _ (rw (e1, e2)) (past_names-rewind f.nwname 0 f.wname _ m.end) r2
  pbody-unpack r_walk m backed (few, ts) r =
      let (e, r1) = pqids-unpack m g.nwqid f.nwqid f.wqid g.wqid [] few ts r in
      at_end _ m _ _ (rw e) (past_qids-rewind f.nwqid _ m.end) r1
  pbody-unpack t_open m backed (h, k) r =
      let (e1, r1) = pfid-unpack m f g (le8 f.mode ∷ []) h r in
      let (e2, r2) = pmode-unpack (advance m 4) f (with_fid f g) [] k r1 in
      at_end _ m _ _ (rw (e1, e2)) refl r2
  pbody-unpack r_open m backed h r =
      let (e, r1) = popened-unpack m f g [] h r in at_end _ m _ _ e refl r1
  pbody-unpack r_create m backed h r =
      let (e, r1) = popened-unpack m f g [] h r in at_end _ m _ _ e refl r1
  pbody-unpack t_create m backed (h, t, p, k) r =
      let (e1, r1) = pfid-unpack m f g (str_chunks f.name (le32 f.perm ∷ le8 f.mode ∷ [])) h r in
      let (e2, r2) = pcreate-unpack (advance m 4) f (with_fid f g) [] backed (t, p, k) r1 in
      at_end _ m _ _ (rw (e1, e2)) refl r2
  pbody-unpack t_read m backed (h, k, c) r =
      let (e1, r1) = pfid-unpack m f g (le64 f.offset ∷ size_chunk f.count ∷ []) h r in
      let (e2, r2) = poffset-unpack (advance m 4) f (with_fid f g) (size_chunk f.count ∷ []) k r1 in
      let (e3, r3) =
        pcount-unpack (advance (advance m 4) 8) f (record (with_fid f g) { offset = f.offset }) [] c
          r2 in
      at_end _ m _ _ (rw (e1, e2, e3)) refl r3
  pbody-unpack r_read m backed h r =
      let (e, r1) = ptransfer-unpack m f g [] backed h r in at_end _ m _ _ e refl r1
  pbody-unpack t_write m backed (h, k, c, b) r =
      let (e1, r1) = pfid-unpack m f g (le64 f.offset ∷ transfer_wire f) h r in
      let (e2, r2) = poffset-unpack (advance m 4) f (with_fid f g) (transfer_wire f) k r1 in
      let (e3, r3) =
        ptransfer-unpack (advance (advance m 4) 8) f (record (with_fid f g) { offset = f.offset })
          [] backed (c, b) r2 in
      at_end _ m _ _ (rw (e1, e2, e3)) refl r3
  pbody-unpack r_write m backed h r =
      let (e, r1) = pcount-unpack m f g [] h r in at_end _ m _ _ e refl r1
  pbody-unpack r_clunk m backed h r =
      let (e, r1) = pfid-unpack m f g [] h r in at_end _ m _ _ e refl r1
  pbody-unpack t_clunk m backed h r =
      let (e, r1) = pfid-unpack m f g [] h r in at_end _ m _ _ e refl r1
  pbody-unpack t_remove m backed h r =
      let (e, r1) = pfid-unpack m f g [] h r in at_end _ m _ _ e refl r1
  pbody-unpack t_stat m backed h r =
      let (e, r1) = pfid-unpack m f g [] h r in at_end _ m _ _ e refl r1
  pbody-unpack r_stat m backed h r =
      let (e, r1) = pstat_block-unpack m f g [] backed h r in at_end _ m _ _ e refl r1
  pbody-unpack t_wstat m backed (h, k, b) r =
      let (e1, r1) = pfid-unpack m f g (stat_wire f) h r in
      let (e2, r2) = pstat_block-unpack (advance m 4) f (with_fid f g) [] backed (k, b) r1 in
      at_end _ m _ _ (rw (e1, e2)) refl r2
  pbody-unpack unhandled m backed h r = at_end _ m m g refl refl r

-- A whole message: its type, its tag and what its type carries.
abbrev pub received : Fcall → Fcall → Fcall
received f g = carried (fcall_type f.type) f (record g { type = f.type; tag = f.tag })

pub pfcall-unpack :
    (m : Message) (f g : Fcall)
    → IsBacked m
    → f.type < 2 ^ 8
    → f.tag < 2 ^ 16
    → Carries (fcall_type f.type) f
    → Ready m (concat (message_wire f))
    → pfcall m g ≡ (record m { pos = m.end }, received f g)
unfolding pfcall
pfcall-unpack m f g backed ht hg h r =
    let body = wire (fcall_type f.type) f in
    let (e1, r1) = pu8-unpack m f.type g.type (concat (le16 f.tag ∷ body)) ht r in
    let (e2, r2) = pu16-unpack (advance m 1) f.tag g.tag (concat body) hg r1 in
    rw (e1, e2)
      (pbody-unpack f (record g { type = f.type; tag = f.tag }) (fcall_type f.type)
        (advance (advance m 1) 2) backed h r2)
