-- ===== src/Message/Frame.antt =====
-- What `mixp_fcall2msg` of libmixp/message.c leaves in the buffer, where the fcall fits.
use libmixp.Base.{
  ℕ, ◌+◌, ◌%◌, ◌^◌, ◌≤◌, ◌≡◌, refl, ap, ◌∙◌, some, ◌++◌, Bytes, length, read_at, write_at,
  length-write_at, read_at-write_at, read_at-write_before, read_at-Holds, Holds, Holds-read_at,
  Holds-append, ltb_le, arith,
}
use mathlib.Core.Path.{subst}
use libmixp.Convert.{Message, msg_pack, msg_unpack, le32}
use libmixp.Convert.Emit.{concat, emits-concat, emit_room, psize-pack}
use libmixp.Convert.Load.{Ready}
use libmixp.Fcall.{Fcall, FcallType, t_walk, r_walk, fcall_type, dump}
use libmixp.Message.{put_size, fcall2msg}
use libmixp.Message.Wire.{Carries, IsPackable}
use libmixp.Message.Pack.{message_wire, pfcall-pack}

pub Carries-IsPackable : (t : FcallType) (f : Fcall) → Carries t f → IsPackable t f
Carries-IsPackable t_walk f c = c.2
Carries-IsPackable r_walk f c = c.0
Carries-IsPackable _ f c = tt

-- The bytes behind the size, and their number with the size.
abbrev pub body : Fcall → Bytes
body f = concat (message_wire f)

abbrev pub frame_size : Fcall → ℕ
frame_size f = 4 + length (body f)

-- The message of the 9P protocol.
abbrev pub frame : Fcall → Bytes
frame f = le32 (frame_size f % 2 ^ 32) ++ body f

-- The buffer with the fcall in it.
abbrev pub packed : Message → Fcall → Message
packed m f = record m {
  buf = write_at (write_at m.buf 4 (body f)) 0 (le32 (frame_size f % 2 ^ 32));
  pos = 0;
  end = frame_size f;
  mode = msg_pack;
}

put_size_room :
    (m : Message) (f : Fcall)
    → m.mode ≡ msg_pack
    → m.pos ≤ m.end
    → 4 ≤ m.pos
    → put_size m f ≡ (
      record m { buf = write_at m.buf 0 (le32 (m.pos % 2 ^ 32)); pos = 0; end = m.pos },
      f,
      m.pos,
    )
unfolding put_size
put_size_room m f packing fits h =
    let front = record m { pos = 0; end = m.pos } in
    rw (
      psize-pack front m.pos packing,
      emit_room front (le32 (m.pos % 2 ^ 32)) (omega arith),
      ltb_le m.end m.pos fits,
    )

pub fcall2msg-packed :
    (m : Message) (f : Fcall) (shown : Bytes)
    → IsPackable (fcall_type f.type) f
    → dump (fcall_type f.type) f ≡ some shown
    → frame_size f ≤ m.size
    → fcall2msg m f ≡ some (packed m f, f, frame_size f)
unfolding fcall2msg
fcall2msg-packed m f shown few h fits =
    let start = record m { end = m.size; pos = 4; mode = msg_pack } in
    rw
      (
        pfcall-pack start f refl few,
        emits-concat start (message_wire f) fits,
        emit_room start (body f) fits,
        h,
      )
      (ap some (
        put_size_room (record start { buf = write_at m.buf 4 (body f); pos = frame_size f }) f refl
          fits (omega arith)))

module _ (m : Message) (f : Fcall) (fits : frame_size f ≤ m.size)
    (backed : m.size ≤ length m.buf) where
  packed-Holds :
      (length (packed m f).buf ≡ length m.buf)
      × Holds (packed m f).buf 0 (frame f)
      × Holds (packed m f).buf 4 (body f)
  packed-Holds =
      let inner = write_at m.buf 4 (body f) in
      let size = le32 (frame_size f % 2 ^ 32) in
      let len : length (write_at inner 0 size) ≡ length m.buf =
        length-write_at inner 0 size ∙ length-write_at m.buf 4 (body f) in
      let inner_len = length-write_at m.buf 4 (body f) in
      let front : Holds (write_at inner 0 size) 0 size =
        Holds-read_at _ 0 size (omega arith) (read_at-write_at inner 0 size (omega arith)) in
      let back : Holds (write_at inner 0 size) 4 (body f) =
        Holds-read_at _ 4 (body f) (omega arith) (
          read_at-write_before inner 0 size 4 (length (body f)) (omega arith)
          ∙ read_at-write_at m.buf 4 (body f) (omega arith)) in
      (len, Holds-append _ 0 4 size (body f) refl front back, back)

  pub length-packed : length (packed m f).buf ≡ length m.buf
  length-packed = packed-Holds.0

  -- What is sent is the protocol's message.
  pub packed-frame : read_at (packed m f).buf 0 (frame_size f) ≡ frame f
  packed-frame =
      let sized : length (frame f) ≡ frame_size f = omega arith in
      subst (λ n. read_at (packed m f).buf 0 n ≡ frame f) sized
        (read_at-Holds _ 0 (frame f) (omega (arith, packed-Holds.0)) packed-Holds.1)

  pub packed-Ready : Ready (record (packed m f) { pos = 4; mode = msg_unpack }) (body f)
  packed-Ready = record { unpacking = refl; room = refl; holds = packed-Holds.2 }
