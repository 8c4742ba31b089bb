-- ===== src/Message/Arrival.antt =====
-- `mixp_msg2fcall` of libmixp/message.c on a message that has arrived, whatever buffer it stands in.
use libmixp.Base.{
  ◌%◌, ◌^◌, ◌≤◌, ◌<◌, ◌≡◌, refl, sym, ap, ◌∙◌, some, Bytes, length, length-take, read_at,
  Holds-right, Holds-read_at, ltb_le, arith,
}
use native.Mathlib.Nat.{le_refl}
use libmixp.Convert.{Message, msg_unpack, le32}
use libmixp.Convert.Load.{Ready}
use libmixp.Fcall.{Fcall, fcall_type, dump}
use libmixp.Message.{msg2fcall}
use libmixp.Message.Wire.{Carries}
use libmixp.Message.Body.{received, pfcall-unpack}
use libmixp.Message.Frame.{body, frame_size, frame}
use libmixp.Message.Names.{HasSlots, dump-carried}
use libmixp.Message.RoundTrip.{type-received}

-- The frame of an fcall stands at the start of a message.
pub record IsFrame (m : Message) (f : Fcall) : Type 0 where
  pub end : m.end ≡ frame_size f
  pub bytes : read_at m.buf 0 (frame_size f) ≡ frame f

length-frame : (f : Fcall) → length (frame f) ≡ frame_size f
length-frame f = omega arith

IsFrame-backed : (m : Message) (f : Fcall) → IsFrame m f → frame_size f ≤ length m.buf
IsFrame-backed m f i =
    omega (arith, ap length i.bytes, length-frame f, length-take (frame_size f) m.buf)

-- What can be sent and read back.
pub record IsCarried (f : Fcall) : Type 0 where
  pub type : f.type < 2 ^ 8
  pub tag : f.tag < 2 ^ 16
  pub carries : Carries (fcall_type f.type) f
  pub shown : Bytes
  pub dumps : dump (fcall_type f.type) f ≡ some shown

pub msg2fcall-frame :
    (m : Message) (f g : Fcall)
    → IsCarried f
    → HasSlots g
    → IsFrame m f
    → msg2fcall m g ≡ some (record m { pos = m.end; mode = msg_unpack }, received f g, m.end)
unfolding msg2fcall
msg2fcall-frame m f g c slots i =
    let backed = IsFrame-backed m f i in
    let whole : read_at m.buf 0 (length (frame f)) ≡ frame f =
      ap (read_at m.buf 0) (length-frame f) ∙ i.bytes in
    let ready : Ready (record m { pos = 4; mode = msg_unpack }) (body f) = record {
      unpacking = refl;
      room = sym i.end;
      holds =
          Holds-right m.buf 0 4 (le32 (frame_size f % 2 ^ 32)) (body f) refl
            (Holds-read_at m.buf 0 (frame f) (omega (arith, backed, length-frame f)) whole);
    } in
    rw (
      pfcall-unpack (record m { pos = 4; mode = msg_unpack }) f g (omega (arith, backed, i.end))
          c.type c.tag c.carries ready,
      type-received f g,
      dump-carried (fcall_type f.type) f (record g { type = f.type; tag = f.tag }) c.shown c.carries
          slots c.dumps,
      ltb_le m.end m.end (le_refl m.end),
    )
