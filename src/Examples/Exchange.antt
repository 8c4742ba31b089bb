-- ===== src/Examples/Exchange.antt =====
-- `muxrpc` of libmixp/rpc.c with two answers on the line, the first with a tag that nobody has.
use libmixp.Base.{refl, ℕ, false, Option, none, some, [], ◌∷◌, ◌++◌, ◌≡◌, Bytes, arith, replicate}
use libmixp.Convert.{
  pu8_store, pu32_store, pu16_store, pu8_load, pu32_load, pu16_load, pu32, psize, pu8, pu16,
  Message, msg_pack, msg_unpack,
}
use libmixp.Fcall.{fcall_type, dump, Fcall, blank}
use libmixp.Examples.Lines.{Line, slow}
use libmixp.Rpc.{
  with_rpc, initrpc, is_free, doubled, grown, make_room, find_free, or_else, choose, take_slot,
  claim, gettag_in, gettag, is_queued, Rpc, Mux, got,
}
use libmixp.Rpc.Runs.{here, idle}
use libmixp.Rpc.Program.{
  message_of, arrived, muxrecv, muxrpc, Link, Called, waits, crashes, faults, loops, returns,
  incoming,
}
use libmixp.Message.{pbody, pfcall, put_size, fcall2msg, msg2fcall}
use mathlib.Core.Option
use libmixp.Transport.{
  still_wanted, sent, stored, mread, readn_loop, readn, send_loop, sendmsg, got_payload,
  read_payload, got_size, recvmsg,
}
use libmixp.Rpc.Answers.{last, before, muxrpc-Answers}
use libmixp.Rpc.Completes.{Completes}

abbrev room : Message
room = record { buf = replicate 16 0; pos = 0; end = 16; size = 16; mode = msg_pack }

abbrev unset : ℕ → Rpc
unset r = record { tag = 99; p = none; async = false }

abbrev link : Link
link = record { mux = idle 0 255 unset; rmsg = room; wmsg = room }

abbrev line : Line
line = record {
  busy = 1;
  coming = (7 ∷ 0 ∷ 0 ∷ 0 ∷ 109 ∷ 5 ∷ 0 ∷ []) ++ (7 ∷ 0 ∷ 0 ∷ 0 ∷ 109 ∷ 0 ∷ 0 ∷ []);
  gone = [];
}

abbrev flush : Fcall
flush = record blank { type = 108; oldtag = 3 }

abbrev exchanged : Called Line → Option (Bytes × Bytes × Option Fcall)
exchanged (returns w l p) = some (w.gone, w.coming, p)
exchanged waits = none
exchanged crashes = none
exchanged faults = none
exchanged loops = none

abbrev tagged : Mux
tagged = take_slot (grown (initrpc link.mux 7)) 7 0

gets_tag : gettag (initrpc link.mux 7) 7 ≡ got tagged 0
unfolding gettag gettag_in claim choose find_free or_else make_room grown doubled is_free initrpc
gets_tag = refl

abbrev outgoing : Message
outgoing = record {
  buf = 9 ∷ 0 ∷ 0 ∷ 0 ∷ 108 ∷ 0 ∷ 0 ∷ 3 ∷ replicate 8 0;
  pos = 0;
  end = 9;
  size = 16;
  mode = msg_pack;
}

fits : fcall2msg room (record flush { tag = 0 }) ≡ some (outgoing, flush, 9)
unfolding pbody pfcall put_size fcall2msg pu8_store pu32_store pu16_store psize pu8 pu16 fcall_type
    dump
fits = refl

abbrev after_line : Line
after_line = record line { busy = 0; gone = 9 ∷ 0 ∷ 0 ∷ 0 ∷ 108 ∷ 0 ∷ 0 ∷ 3 ∷ 0 ∷ [] }

goes : sendmsg slow 30 line outgoing ≡ some (after_line, record outgoing { pos = 9 }, 9)
unfolding sent send_loop sendmsg
goes = refl

abbrev answer : ℕ → Fcall
answer tag = record blank { type = 109; tag = tag }

abbrev frame_of : ℕ → Bytes
frame_of tag = 7 ∷ 0 ∷ 0 ∷ 0 ∷ 109 ∷ tag ∷ 0 ∷ []

abbrev holding : ℕ → Message
holding tag = record {
  buf = frame_of tag ++ replicate 9 0;
  pos = 7;
  end = 7;
  size = 16;
  mode = msg_unpack;
}

first_arrives :
    muxrecv slow 30 after_line room
    ≡ incoming (record after_line { coming = frame_of 0 }) (holding 5) (some (answer 5))
unfolding muxrecv arrived message_of still_wanted stored mread readn_loop readn got_payload
    read_payload got_size recvmsg pbody pfcall msg2fcall pu8_load pu32_load pu16_load pu32 pu8 pu16
    fcall_type dump Option.bind
first_arrives = refl

second_arrives :
    muxrecv slow 30 (record after_line { coming = frame_of 0 }) (holding 5)
    ≡ incoming (record after_line { coming = [] }) (holding 0) (some (answer 0))
unfolding muxrecv arrived message_of still_wanted stored mread readn_loop readn got_payload
    read_payload got_size recvmsg pbody pfcall msg2fcall pu8_load pu32_load pu16_load pu32 pu8 pu16
    fcall_type dump Option.bind
second_arrives = refl

-- The answer with the tag 5 is dropped, and the one with the tag 0 returned.
muxrpc-Answers_example :
    (l : Line) × (k : Link) × (muxrpc slow 3 30 line link 7 flush ≡ returns l k (some (answer 0)))
unfolding is_queued take_slot grown with_rpc initrpc
muxrpc-Answers_example =
    muxrpc-Answers slow 30 0 255 unset 7 3 line after_line link flush flush (answer 0) tagged 0 8 8
      outgoing (record outgoing { pos = 9 }) (answer 5 ∷ []) here (λ j e. cc e) refl gets_tag refl
      fits goes (before first_arrives (last second_arrives)) ((λ e. absurd (omega (arith, e))), tt)
      refl (omega arith)
