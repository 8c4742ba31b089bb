-- ===== src/Request/Accept.antt =====
-- `mixp_serve_conn` of libmixp/request.c: a client is accepted, and gets a connection of its own. `accept` is
-- a call of the operating system: its result is a parameter.
use libmixp.Base.{ℕ, true, false, Option, none, some, replicate, arith}
use libmixp.Convert.{Message, msg_pack}
use libmixp.Compound.{zero_qid}
use libmixp.Intmap.{init}
use libmixp.Intmap.Refines.{IsPlaced, init-IsPlaced}
use libmixp.Server.{Server, ixp_listen}
use libmixp.Request.{Fid}
use libmixp.Request.Reply.{Session}
use libmixp.Request.Incoming.{new_request}

abbrev pub tag_buckets : ℕ
tag_buckets = 61

abbrev pub fid_buckets : ℕ
fid_buckets = 61

-- What `malloc` gives is zero here, and `calloc` makes it so.
abbrev pub new_message : Message
new_message = record { buf = replicate 1024 0; pos = 0; end = 0; size = 1024; mode = msg_pack }

abbrev pub no_fid_fields : ℕ → Fid
no_fid_fields a = record { fid = 0; qid = zero_qid; omode = 0 }

-- `pc`, with one reference.
unfoldable pub new_session : Session
new_session = record {
  conn = record {
    tagmap = init tag_buckets;
    fidmap = init fid_buckets;
    fids = no_fid_fields;
    next = 0;
    ref = 1;
  };
  requests = λ a. new_request;
  rmsg = new_message;
  wmsg = new_message;
  linked = false;
}

unfoldable pub listening_for : Option (Server × ℕ) → Option (Server × Option (ℕ × Session))
listening_for none = none
listening_for (some (s, c)) = some (s, some (c, new_session))

-- `pc` is the address of the new session, and `handlefcall` and `cleanupconn` are its functions.
unfoldable pub mixp_serve_conn : Option ℕ → ℕ → Server → Option (Server × Option (ℕ × Session))
mixp_serve_conn none pc s = some (s, none)
mixp_serve_conn (some fd) pc s = listening_for (ixp_listen (some s) fd pc true true)

-- The maps of a new session are well-formed.
pub new_session-IsPlaced : IsPlaced new_session.conn.tagmap × IsPlaced new_session.conn.fidmap
unfolding new_session
new_session-IsPlaced =
    (init-IsPlaced tag_buckets (omega arith), init-IsPlaced fid_buckets (omega arith))
