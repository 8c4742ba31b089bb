-- ===== src/Examples/Codec.antt =====
-- Scalars, strings and messages of libmixp/convert.c and libmixp/message.c.
use libmixp.Base.{
  ℕ, ◌+◌, ◌%◌, ◌^◌, ◌≤◌, ◌<◌, ◌≡◌, ◌↔◌, refl, none, some, [], ◌∷◌, Bytes, replicate, arith,
}
use libmixp.Convert.{Message, msg_pack, msg_unpack, pu64_store, pu16_load, pu64_load}
use libmixp.Convert.Scalars.{pu64_load-pu64_store}
use libmixp.Compound.{strlen, scan_strings, fill_strings}
use libmixp.Compound.Heap.{fill_strings-scan_strings}
use libmixp.Fcall.{Fcall, blank, fcall_type}
use libmixp.Message.{msg2fcall}
use libmixp.Message.Frame.{frame}
use libmixp.Message.Walk.{walk_faults}

abbrev buffer : ℕ → Message
buffer n = record { buf = replicate n 0; pos = 0; end = n; size = n; mode = msg_pack }

pu64_load-pu64_store_example :
    ((pu64_load (record (pu64_store (buffer 9) (2 ^ 31)) { pos = 0 })).1 ≡ 2 ^ 31)
    ↔ ((2 ^ 31 < 2 ^ 56) × (2 ^ 31 % 2 ^ 32 < 2 ^ 31))
pu64_load-pu64_store_example =
    pu64_load-pu64_store (buffer 9) (2 ^ 31) (omega arith) (omega arith) (omega arith)

-- The top byte lands four bits too low.
wide_value : (pu64_load (record (pu64_store (buffer 9) (2 ^ 56)) { pos = 0 })).1 ≡ 2 ^ 52
unfolding pu64_load pu64_store
wide_value = refl

-- `Tversion` as the client sends it.
abbrev nine_p : Bytes
nine_p = b'9' ∷ b'P' ∷ b'2' ∷ b'0' ∷ b'0' ∷ b'0' ∷ []

abbrev hello : Fcall
hello = record blank { type = 100; tag = 0xffff; msize = 8192; version = some nine_p }

frame-hello :
    frame hello
    ≡ 19 ∷ 0 ∷ 0 ∷ 0 ∷ 100 ∷ 255 ∷ 255 ∷ 0 ∷ 32 ∷ 0 ∷ 0 ∷ 6 ∷ 0 ∷ b'9' ∷ b'P' ∷ b'2' ∷ b'0' ∷ b'0'
      ∷ b'0' ∷ []
unfolding fcall_type strlen
frame-hello = refl

-- Two names in a message: "ab" and "c".
abbrev names : Message
names = record (buffer 7) { buf = 2 ∷ 0 ∷ b'a' ∷ b'b' ∷ 1 ∷ 0 ∷ b'c' ∷ []; mode = msg_unpack }

names_scanned : scan_strings 2 names 0 ≡ (record names { pos = 7 }, some 3)
unfolding scan_strings pu16_load
names_scanned = refl

fill_strings-scan_strings_example :
    ((fill_strings 2 0 names blank.wname 0).2 ≡ 3 + 2)
    × ((fill_strings 2 0 names blank.wname 0).0 ≡ record names { pos = 7 })
    × (7 ≤ 7)
fill_strings-scan_strings_example =
    fill_strings-scan_strings 2 names (record names { pos = 7 }) blank.wname 3 (omega arith)
      names_scanned

-- The header of a walk with 17 names.
abbrev crowd : Message
crowd = record (buffer 17) {
  buf = 17 ∷ 0 ∷ 0 ∷ 0 ∷ 110 ∷ 5 ∷ 0 ∷ 1 ∷ 0 ∷ 0 ∷ 0 ∷ 2 ∷ 0 ∷ 0 ∷ 0 ∷ 17 ∷ 0 ∷ [];
}

walk_faults_example : msg2fcall crowd blank ≡ none
walk_faults_example =
    walk_faults crowd blank 5 1 2 17 [] (omega arith) (omega arith) (omega arith) (omega arith)
      (omega arith) refl (record { unpacking = refl; room = refl; holds = omega arith })
