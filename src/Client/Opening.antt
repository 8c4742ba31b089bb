-- ===== src/Client/Opening.antt =====
-- `initfid` of libmixp/client.c: the transfer unit of a fid that has been opened.
use libmixp.Base.{◌^◌, ◌≤◌, ◌<◌, arith}
use libmixp.Fcall.{Fcall}
use libmixp.Client.{Cfid, max_iounit, bounded_iounit, initfid}

-- The `iounit` of an opened fid is never 0. If the server's is below 2^31 then it is at most 8175, so
-- that a message holds it; otherwise it is at least 2^63, for the `int`s of `min` are negative there.
pub initfid_lem :
    (f : Cfid) (ret : Fcall)
    → (0 < (initfid f ret).iounit)
      × (ret.iounit < 2 ^ 31 → (initfid f ret).iounit ≤ max_iounit)
      × (2 ^ 31 ≤ ret.iounit → ret.iounit < 2 ^ 32 → 2 ^ 63 ≤ (initfid f ret).iounit)
unfolding initfid bounded_iounit
initfid_lem f ret = (ground arith, λ h. ground arith, λ h k. ground arith)
