-- ===== src/Examples/Wire.antt =====
-- libmixp/transport.c on a system that gives and takes one byte at a time, after one interruption.
use libmixp.Base.{◌≡◌, inr, refl, some, [], ◌∷◌, ◌++◌, replicate, read_at, arith}
use libmixp.Convert.{Message, msg_unpack, msg_pack, le32}
use libmixp.Examples.Lines.{Line, slow, slow_input, slow_output}
use libmixp.Transport.{recvmsg, sendmsg}
use libmixp.Transport.Receive.{recvmsg-receives, recvmsg-refuses}
use libmixp.Transport.Send.{sendmsg-sends}

abbrev room : Message
room = record { buf = replicate 16 0; pos = 3; end = 5; size = 16; mode = msg_pack }

abbrev line : Line
line = record { busy = 1; coming = le32 6 ++ (7 ∷ 8 ∷ 9 ∷ []); gone = [] }

recvmsg-receives_example :
    (l : Line) × (m : Message) × (recvmsg slow 9 line room ≡ some (l, m, 6))
    × (l.coming ≡ 9 ∷ [])
    × (read_at m.buf 0 6 ≡ le32 6 ++ (7 ∷ 8 ∷ []))
    × (m.end ≡ 6)
    × (m.mode ≡ msg_unpack)
recvmsg-receives_example =
    recvmsg-receives slow slow_input 9 line room 6 (7 ∷ 8 ∷ []) (9 ∷ []) (omega arith) (omega arith)
      (omega arith) (omega arith) refl (omega arith)

abbrev full_line : Line
full_line = record { busy = 0; coming = le32 16 ++ replicate 12 1; gone = [] }

-- The message would fill the buffer exactly.
recvmsg-refuses_example :
    (l : Line) × (m : Message) × (recvmsg slow 9 full_line room ≡ some (l, m, 0))
    × (l.coming ≡ replicate 12 1)
recvmsg-refuses_example =
    recvmsg-refuses slow slow_input 9 full_line room 16 (replicate 12 1) (omega arith) (omega arith)
      (omega arith) (omega arith) (inr (omega arith)) refl (omega arith)

abbrev outgoing : Message
outgoing = record { buf = 4 ∷ 5 ∷ 6 ∷ 0 ∷ []; pos = 2; end = 3; size = 4; mode = msg_pack }

sendmsg-sends_example :
    (l : Line) × (sendmsg slow 9 line outgoing ≡ some (l, record outgoing { pos = 3 }, 3))
    × (l.gone ≡ 4 ∷ 5 ∷ 6 ∷ [])
sendmsg-sends_example = sendmsg-sends slow slow_output 9 line outgoing (omega arith) (omega arith)
