-- ===== src/Examples/Sessions.antt =====
-- A connection of libmixp/request.c behind a line that gives and takes one byte at a time.
use libmixp.Base.{ℕ, ◌≡◌, refl, Bool, true, none, some, [], ◌∷◌, ◌++◌, replicate}
use libmixp.Convert.{Message, msg_unpack}
use libmixp.Compound.{zero_qid}
use libmixp.Fcall.{Fcall, blank, t_read, fcall_type}
use libmixp.Message.Frame.{frame}
use libmixp.Intmap.{Intmap, init, find, lookupkey, caninsertkey}
use libmixp.Request.{Conn, Op}
use libmixp.Request.Reply.{Session, loops, error_of, answer_fields, completed, mixp_respond}
use libmixp.Request.Flushing.{FlushesItself, mixp_respond-loops}
use libmixp.Examples.Lines.{Line, slow}

abbrev buffer : Message
buffer = record { buf = replicate 64 0; pos = 0; end = 0; size = 64; mode = msg_unpack }

abbrev one_tag : Intmap ℕ
one_tag = (caninsertkey (init 61) 5 0).0

abbrev conn : Conn
conn = record {
  tagmap = one_tag;
  fidmap = init 61;
  fids = λ a. record { fid = 1; qid = zero_qid; omode = 0 };
  next = 1;
  ref = 2;
}

abbrev session : Fcall → Fcall → Session
session asked answer = record {
  conn = conn;
  requests =
      λ a. record { fid = some 0; newfid = none; oldreq = none; ifcall = asked; ofcall = answer };
  rmsg = buffer;
  wmsg = buffer;
  linked = true;
}

-- A read of one byte, and what the file system answers.
abbrev read_call : Fcall
read_call = record blank { type = 116; tag = 5; fid = 1; count = 1 }

abbrev read_answer : Fcall
read_answer = record blank { count = 1; payload = some (7 ∷ []) }

abbrev reading : Session
reading = session read_call read_answer

read_type : fcall_type 116 ≡ t_read
unfolding fcall_type
read_type = refl

abbrev sent_answer : Fcall
sent_answer = record read_answer { type = 117; tag = 5 }

answer_known :
    completed read_call
      (error_of (fcall_type 116) (reading.requests 0) none)
      (answer_fields reading (fcall_type 116) (reading.requests 0))
    ≡ sent_answer
unfolding completed error_of answer_fields fcall_type
answer_known = refl

abbrev quiet : Line
quiet = record { busy = 1; coming = []; gone = [] }

-- A flush of the tag 5 under the tag 5.
abbrev flush_call : Fcall
flush_call = record blank { type = 108; tag = 5; oldtag = 5 }

abbrev flushing : Session
flushing = session flush_call blank

flushing-FlushesItself : FlushesItself flushing 0
unfolding fcall_type lookupkey caninsertkey find init
flushing-FlushesItself = record { type = refl; itself = refl }

mixp_respond-loops_example : mixp_respond slow 100 30 quiet flushing 0 none ≡ loops
mixp_respond-loops_example =
    mixp_respond-loops slow 100 30 quiet flushing 0 none flushing-FlushesItself

-- A read arrives under the tag 6.
abbrev next_read : Fcall
next_read = record read_call { tag = 6 }

abbrev busy : Line
busy = record { busy = 1; coming = frame next_read ++ 9 ∷ []; gone = [] }

abbrev every : Op → Bool
every op = true
