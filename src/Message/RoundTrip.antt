-- ===== src/Message/RoundTrip.antt =====
-- `mixp_fcall2msg` and `mixp_msg2fcall` of libmixp/message.c, one after the other.
use libmixp.Base.{◌≡◌, refl}
use libmixp.Convert.{Message}
use libmixp.Fcall.{Fcall, FcallType, t_walk, fcall_type}
use libmixp.Message.Wire.{carried}
use libmixp.Message.Body.{received}

type-carried : (t : FcallType) (f g : Fcall) → (carried t f g).type ≡ g.type
type-carried t_walk f g = refl
type-carried _ f g = refl

pub type-received : (f g : Fcall) → (received f g).type ≡ f.type
type-received f g = type-carried (fcall_type f.type) f (record g { type = f.type; tag = f.tag })
