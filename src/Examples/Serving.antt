-- ===== src/Examples/Serving.antt =====
-- libmixp/request.c with a server that has every function.
use libmixp.Base.{ℕ, ◌≡◌, refl, Bool, true, none, some, arith}
use libmixp.Compound.{zero_qid}
use libmixp.Fcall.{Fcall, blank, t_attach, fcall_type}
use libmixp.Intmap.{Intmap, init, find, lookupkey, caninsertkey}
use libmixp.Intmap.Refines.{IsPlaced, init-IsPlaced, caninsertkey-lookupkey}
use libmixp.Request.{Fid, Conn, Request, dup_fid, Op, responds, handlereq}
use libmixp.Request.Answer.{faults, respond}
use libmixp.Request.Walking.{attach_faults}

abbrev every : Op → Bool
every op = true

abbrev root : Fid
root = record { fid = 1; qid = record zero_qid { type = 128 }; omode = 255 }

abbrev fidmap : Intmap ℕ
fidmap = (caninsertkey (init 61) 1 0).0

fidmap-IsPlaced : IsPlaced fidmap
fidmap-IsPlaced = (caninsertkey-lookupkey {V = ℕ} (init 61) (init-IsPlaced 61 (omega arith)) 1 0).2

abbrev conn : Conn
conn = record { tagmap = init 61; fidmap = fidmap; fids = λ a. root; next = 1; ref = 2 }

abbrev request : Fcall → Request
request f = record { fid = none; newfid = none; oldreq = none; ifcall = f; ofcall = blank }

abbrev create_call : Fcall
create_call = record blank { type = 114; fid = 1 }

root_known : lookupkey fidmap 1 ≡ some 0
unfolding init find lookupkey caninsertkey
root_known = refl

abbrev attach_call : Fcall
attach_call = record blank { type = 104; fid = 1 }

attach_type : fcall_type 104 ≡ t_attach
unfolding fcall_type
attach_type = refl

attach_faults_example :
    (c1 : Conn) × (r1 : Request) × (handlereq every conn (request attach_call)
      ≡ (c1, r1, responds (some dup_fid)))
    × (respond 9 c1 r1 (some dup_fid) ≡ faults)
attach_faults_example =
    attach_faults every conn (request attach_call) fidmap-IsPlaced 9 0 attach_type root_known

abbrev walk_call : Fcall
walk_call = record blank { type = 110; fid = 1; newfid = 62; nwname = 1 }
