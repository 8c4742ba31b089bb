-- ===== src/Message/Fit.antt =====
-- `mixp_fcall2msg` of libmixp/message.c over every buffer size.
use libmixp.Convert.{Message}
use libmixp.Fcall.{Fcall}
