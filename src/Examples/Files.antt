-- ===== src/Examples/Files.antt =====
-- libmixp/client.c against a server with one file, whose content is the server's state.
use libmixp.Base.{
  none, ℕ, suc, ◌≡◌, refl, Bool, true, Option, some, [], ◌∷◌, Bytes, length, write_at, read_at,
  ◌==◌, if◌then◌else◌, arith,
}
use libmixp.Compound.{bytes_of}
use libmixp.Fcall.{Fcall, blank}
use libmixp.Client.{Cfid, Pool, new_fid, pwrite}
use libmixp.Client.Reading.{Serves}
use libmixp.Client.Stalled.{WritesNothing, pwrite_stalls}
use libmixp.Client.Writing.{Stores}

abbrev hello : Bytes
hello = 104 ∷ 101 ∷ 108 ∷ 108 ∷ 111 ∷ []

abbrev read_reply : ℕ → ℕ → Fcall
read_reply o n = record blank {
  type = 117;
  count = length (read_at hello o n);
  payload = some (read_at hello o n);
}

abbrev reader : ℕ → Fcall → ℕ × Option Fcall
reader served fcall = (suc served, some (read_reply fcall.offset fcall.count))

abbrev two_at_once : Cfid
two_at_once = record (new_fid 5) { iounit = 2; offset = 1 }

abbrev reader_serves : Serves reader two_at_once hello
reader_serves = record {
  reply = read_reply;
  sends = λ s o n. refl;
  type = λ o n. refl;
  payload = λ o n. refl;
  count = λ o n. refl;
}

abbrev write_reply : ℕ → Fcall
write_reply n = record blank { type = 119; count = n }

abbrev writer : Bytes → Fcall → Bytes × Option Fcall
writer file fcall =
    (write_at file fcall.offset (bytes_of fcall.payload), some (write_reply fcall.count))

abbrev writer_stores : Stores writer 5
writer_stores = record {
  content = λ file. file;
  reply = write_reply;
  type = λ n. refl;
  count = λ n. refl;
  sends = λ s f bs e. refl;
  stores = λ s f bs e. refl;
}

-- The root's fid 1 and the fid 3 are in use, and 2 is free.
abbrev pool : Pool
pool = record { lastfid = 3; freefid = new_fid 2 ∷ [] }

abbrev in_use : ℕ → Bool
in_use q = if q == 1 then true else q == 3

abbrev opened : Fcall
opened = record blank { type = 113; iounit = 0 }

abbrev sink : ℕ → Fcall → ℕ × Option Fcall
sink served fcall = (suc served, some (write_reply 0))

abbrev sink_writes : WritesNothing sink
sink_writes = record { reply = write_reply 0; type = refl; count = refl; sends = λ s f n bs. refl }

pwrite_stalls_example : pwrite sink 100 0 two_at_once hello 0 ≡ none
pwrite_stalls_example = pwrite_stalls sink sink_writes 100 0 two_at_once hello 0 (omega arith)
