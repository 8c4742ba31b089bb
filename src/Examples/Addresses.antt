-- ===== src/Examples/Addresses.antt =====
-- libmixp/addr.c at some addresses.
use libmixp.Base.{[], ◌∷◌, Bytes}

abbrev host : Bytes
host = b'h' ∷ b'1' ∷ []

abbrev port : Bytes
port = b'5' ∷ b'6' ∷ b'4' ∷ []

abbrev path : Bytes
path = b'd' ∷ b'/' ∷ b'e' ∷ []
