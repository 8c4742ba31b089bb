-- ===== src/Request/Answer.antt =====
-- What `mixp_respond` of libmixp/request.c does to the fids, before it sends the answer.
use libmixp.Base.{
  ℕ, ◌-◌, ◌%◌, Bool, true, false, ◌||◌, Option, none, some, get_or, ltb, ◌==◌, if◌then◌else◌,
}
use libmixp.Compound.{zero_qid}
use libmixp.Fcall.{
  FcallType, t_version, t_attach, t_clunk, t_flush, t_create, t_open, t_read, t_remove, t_stat,
  t_walk, t_write, fcall_type,
}
use libmixp.Request.{Fid, Conn, Request, Error, destroyfid}

-- `faults` is a failed assertion or a read through NULL, and `runs` a deletion that does not end.
pub data Answered : Type 0 where
  faults runs : Answered
  answered : Conn → Answered

unfoldable pub destroyed : Option (Conn × Bool) → Answered
destroyed none = runs
destroyed (some (c, found)) = answered c

unfoldable pub destroy_at : ℕ → Conn → Option ℕ → Answered
destroy_at rounds c none = answered c
destroy_at rounds c (some a) = destroyed (destroyfid rounds c (c.fids a).fid)

unfoldable pub attach_failed : ℕ → Conn → Option ℕ → Answered
attach_failed rounds c none = faults
attach_failed rounds c (some a) = destroyed (destroyfid rounds c (c.fids a).fid)

abbrev pub with_fields : Conn → ℕ → Fid → Conn
with_fields c a f = record c { fids = λ b. if b == a then f else c.fids b }

unfoldable pub open_answered : Conn → Request → Option ℕ → Answered
open_answered c r none = faults
open_answered c r (some a) =
    answered
      (with_fields c a (record (c.fids a) { omode = r.ifcall.mode % 256; qid = r.ofcall.qid }))

unfoldable pub walk_qid : Conn → Request → Option ℕ → Option ℕ → Answered
walk_qid c r none fid = faults
walk_qid c r (some a) none =
    if r.ofcall.nwqid == 0
    then faults
    else answered (
        with_fields c a
          (record (c.fids a) { qid = get_or r.ofcall.wqid (r.ofcall.nwqid - 1) zero_qid }))
walk_qid c r (some a) (some b) =
    let last = get_or r.ofcall.wqid (r.ofcall.nwqid - 1) zero_qid in
    let qid = if r.ofcall.nwqid == 0 then (c.fids b).qid else last in
    answered (with_fields c a (record (c.fids a) { qid = qid }))

unfoldable pub failed : Option Error → Bool
failed none = false
failed (some e) = true

unfoldable pub walk_answered : ℕ → Conn → Request → Bool → Answered
walk_answered rounds c r error =
    let undone =
      if r.ifcall.fid == r.ifcall.newfid then answered c else destroy_at rounds c r.newfid in
    if error || ltb r.ofcall.nwqid r.ifcall.nwname then undone else walk_qid c r r.newfid r.fid

-- The `switch` of `mixp_respond`, as far as the fids are concerned; the answer to a Tflush answers the
-- old request before, which is a second call of it.
unfoldable pub respond_type : ℕ → Conn → Request → FcallType → Bool → Answered
respond_type rounds c r t_version error = if error then faults else answered c
respond_type rounds c r t_attach error = if error then attach_failed rounds c r.fid else answered c
respond_type rounds c r t_open error = if error then answered c else open_answered c r r.fid
respond_type rounds c r t_create error = if error then answered c else open_answered c r r.fid
respond_type rounds c r t_walk error = walk_answered rounds c r error
respond_type rounds c r t_remove error = destroy_at rounds c r.fid
respond_type rounds c r t_clunk error = destroy_at rounds c r.fid
respond_type rounds c r t_write error = answered c
respond_type rounds c r t_flush error = answered c
respond_type rounds c r t_read error = answered c
respond_type rounds c r t_stat error = answered c
respond_type rounds c r t error = if error then answered c else faults

unfoldable pub respond : ℕ → Conn → Request → Option Error → Answered
respond rounds c r error = respond_type rounds c r (fcall_type r.ifcall.type) (failed error)
