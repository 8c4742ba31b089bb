-- ===== src/Request/Reply.antt =====
-- `mixp_respond` of libmixp/request.c whole: the answer is completed, the tag of the request is given back,
-- and the answer is sent. The requests of a connection are known by their addresses, which the map of the
-- tags gives. Memory that is given back is not followed.
use libmixp.Base.{
  ℕ, zero, suc, ◌+◌, ◌-◌, ◌%◌, ◌^◌, Bool, true, false, Option, none, some, Bytes, padded, ltb, ◌==◌,
  if◌then◌else◌, codes,
}
use libmixp.Convert.{Message}
use libmixp.Fcall.{
  Fcall, FcallType, t_version, t_clunk, t_flush, t_create, t_open, t_walk, fcall_type,
}
use libmixp.Message.{fcall2msg}
use libmixp.Transport.{System, sendmsg}
use libmixp.Intmap.{Intmap, lookupkey, deletekey}
use libmixp.Request.{
  Conn, Request, Error, dup_fid, no_func, botch, no_fid, no_tag, not_dir, is_dir, walk_open,
  not_writable, dup_tag, no_file, interrupted,
}
use libmixp.Request.Answer.{Answered, faults, runs, answered, respond_type}

-- MIXP_9CONN with its messages. `linked` tells whether `pc->conn` is there.
pub record Session : Type 0 where
  pub conn : Conn
  pub requests : ℕ → Request
  pub rmsg : Message
  pub wmsg : Message
  pub linked : Bool

-- The strings of request.c.
unfoldable pub error_text : Error → Bytes
error_text dup_tag = codes "tag in use"
error_text dup_fid = codes "fid in use"
error_text no_func = codes "function not implemented"
error_text botch = codes "9P protocol botch"
error_text no_file = codes "file does not exist"
error_text no_fid = codes "fid does not exist"
error_text no_tag = codes "tag does not exist"
error_text not_dir = codes "not a directory"
error_text interrupted = codes "interrupted"
error_text is_dir = codes "cannot perform operation on a directory"
error_text walk_open = codes "cannot walk from an open fid"
error_text not_writable = codes "write on fid not opened for writing"

abbrev pub max_msg : ℕ
max_msg = 8192

-- `min(msize, MIXP_MAX_MSG)` on `int`s, and the repair of what is below 1.
unfoldable pub message_size : ℕ → ℕ
message_size msize =
    let int = msize % 2 ^ 32 in
    if ltb int (2 ^ 31)
    then (if int == 0 then max_msg else (if ltb int max_msg then int else max_msg))
    else max_msg

-- `realloc`; what is behind the old block is zero here.
unfoldable pub resized : Message → ℕ → Message
resized m n = record m { buf = padded n m.buf; size = n }

unfoldable pub sized : FcallType → Session → Request → Session
sized t_version s r =
    let msize = message_size r.ofcall.msize in
    record s { rmsg = resized s.rmsg msize; wmsg = resized s.wmsg msize }
sized t s r = s

-- `pc->rmsg.size - 16`, a `size_t`
abbrev pub offered_iounit : Session → ℕ
offered_iounit s = (s.rmsg.size + 2 ^ 64 - 16) % 2 ^ 64

unfoldable pub answer_fields : Session → FcallType → Request → Fcall
answer_fields s t_version r = record r.ofcall { msize = message_size r.ofcall.msize }
answer_fields s t_open r = record r.ofcall { iounit = offered_iounit s }
answer_fields s t_create r = record r.ofcall { iounit = offered_iounit s }
answer_fields s t_clunk r = record r.ofcall { fid = r.ifcall.fid }
answer_fields s t r = r.ofcall

unfoldable pub walk_error : Request → Option Bytes → Option Bytes
walk_error r (some error) = some error
walk_error r none =
    if ltb r.ofcall.nwqid r.ifcall.nwname
    then (if r.ofcall.nwqid == 0 then some (error_text no_file) else none)
    else none

unfoldable pub error_of : FcallType → Request → Option Bytes → Option Bytes
error_of t_walk r error = walk_error r error
error_of t r error = error

unfoldable pub is_error : Option Bytes → Bool
is_error none = false
is_error (some error) = true

-- The tag and the type of the answer.
unfoldable pub completed : Fcall → Option Bytes → Fcall → Fcall
completed asked none of = record of { tag = asked.tag; type = (asked.type + 1) % 256 }
completed asked (some error) of = record of { tag = asked.tag; type = 107; ename = some error }

abbrev pub with_request : Session → ℕ → Request → Session
with_request s a r = record s { requests = λ b. if b == a then r else s.requests b }

abbrev pub with_conn : Session → Conn → Session
with_conn s c = record s { conn = c }

-- `crashes` is a memory fault or a failed assertion, `loops` a loop or a recursion that has not ended, and
-- `cuts` the call of `mixp_hangup`, from where on the answer is not followed.
pub data Reply {ℓ} (W : Type ℓ) : Type ℓ where
  crashes loops : Reply W
  responded cuts : W → Session → Reply W

module _ {ℓ} {W : Type ℓ} where
  unfoldable pub after_send : Session → ℕ → W × Message × ℕ → Reply W
  after_send s msize (w, msg, n) =
      if n == msize then responded w (record s { wmsg = msg }) else cuts w (record s { wmsg = msg })

  unfoldable pub all_sent : Session → ℕ → Option (W × Message × ℕ) → Reply W
  all_sent s msize none = loops
  all_sent s msize (some r) = after_send s msize r

module _ {ℓ} {W : Type ℓ} (system : System W) where
  unfoldable pub transmit : ℕ → W → Session → Option (Message × Fcall × ℕ) → Reply W
  transmit rounds w s none = crashes
  transmit rounds w s (some (msg, of, msize)) = all_sent s msize (sendmsg system rounds w msg)

  unfoldable pub send_answer : ℕ → W → Session → Fcall → Reply W
  send_answer rounds w s of =
      if s.linked then transmit rounds w s (fcall2msg s.wmsg of) else responded w s

  unfoldable pub untagged : ℕ → W → Session → Fcall → Option (Intmap ℕ × Option ℕ) → Reply W
  untagged rounds w s of none = loops
  untagged rounds w s of (some (tagmap, old)) =
      send_answer rounds w (with_conn s (record s.conn { tagmap = tagmap })) of

  -- What follows the `switch`.
  unfoldable pub finish : ℕ → W → Session → ℕ → Option Bytes → Reply W
  finish rounds w s a error =
      let r = s.requests a in
      let of = completed r.ifcall error r.ofcall in
      untagged rounds w (with_request s a (record r { ofcall = of })) of
        (deletekey rounds s.conn.tagmap r.ifcall.tag)

  -- The `switch` on a type other than P9_TFlush.
  unfoldable pub switched : ℕ → W → Session → ℕ → Option Bytes → FcallType → Answered → Reply W
  switched rounds w s a error t faults = crashes
  switched rounds w s a error t runs = loops
  switched rounds w s a error t (answered c) =
      let r = s.requests a in
      let s1 = sized t (with_conn s c) r in
      finish rounds w (with_request s1 a (record r { ofcall = answer_fields s t r })) a
        (error_of t r error)

  unfoldable pub continued : ℕ → ℕ → Option Bytes → Reply W → Reply W
  continued rounds a error crashes = crashes
  continued rounds a error loops = loops
  continued rounds a error (responded w s) = finish rounds w s a error
  continued rounds a error (cuts w s) = cuts w s

  -- `respond` is the recursive call.
  unfoldable pub flush_old :
      (W → Session → ℕ → Reply W) → ℕ → W → Session → ℕ → Option Bytes → Option ℕ → Reply W
  flush_old respond rounds w s a error none = finish rounds w s a error
  flush_old respond rounds w s a error (some old) = continued rounds a error (respond w s old)

  unfoldable pub respond_as :
      (W → Session → ℕ → Reply W) → ℕ → W → Session → ℕ → Option Bytes → FcallType → Reply W
  respond_as respond rounds w s a error t_flush =
      let r = s.requests a in
      let old = lookupkey s.conn.tagmap r.ifcall.oldtag in
      flush_old respond rounds w (with_request s a (record r { oldreq = old })) a error old
  respond_as respond rounds w s a error t =
      switched rounds w s a error t (respond_type rounds s.conn (s.requests a) t (is_error error))

  -- `depth` is the number of calls of `mixp_respond` in each other.
  unfoldable pub mixp_respond : ℕ → ℕ → W → Session → ℕ → Option Bytes → Reply W
  mixp_respond zero rounds w s a error = loops
  mixp_respond (suc depth) rounds w s a error =
      respond_as (λ w1 s1 old. mixp_respond depth rounds w1 s1 old (some (error_text interrupted)))
        rounds w s a error (fcall_type (s.requests a).ifcall.type)
