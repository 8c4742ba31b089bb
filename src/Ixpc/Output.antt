-- ===== src/Ixpc/Output.antt =====
-- `xread` of cmd/ixpc.c: what it prints is the file.
use libmixp.Base.{ℕ, ◌+◌, ◌<◌, ◌≡◌, ap, Option, some, ◌++◌, Bytes, length, drop, read_at}
use mathlib.Core.Option
use libmixp.Fcall.{Fcall}
use libmixp.Client.{Cfid, after_read, read}
use libmixp.Client.Reading.{Serves, pread-file}

module _ {S : Type 0} (muxrpc : S → Fcall → S × Option Fcall) (f : Cfid) (content : Bytes)
    (server : Serves muxrpc f content) (unit : 0 < f.iounit) where
  -- The fid where the reading has come to `n`.
  abbrev pub at_offset : ℕ → Cfid
  at_offset n = record f { offset = n }

  server_at : (n : ℕ) → Serves muxrpc (at_offset n) content
  server_at n = record {
    reply = server.reply;
    sends = server.sends;
    type = server.type;
    payload = server.payload;
    count = server.count;
  }

  pub read-file :
      (rounds : ℕ) (s : S) (n : ℕ)
      → f.iounit < rounds
      → let bs = read_at content n f.iounit in
        (s1 : S) × (read muxrpc rounds s (at_offset n) f.iounit
          ≡ some (s1, at_offset (n + length bs), some bs))
  unfolding read after_read
  read-file rounds s n enough =
      let (s1, e) =
        pread-file muxrpc (at_offset n) content (server_at n) unit rounds s f.iounit n enough in
      (s1, ap (Option.map (after_read (at_offset n))) e)

  abbrev print : Bytes → Bytes → Option Bytes
  print text bs = some (text ++ bs)

  -- The rest of the file is printed behind `text`.
  abbrev Prints : Option (S × Bytes) → Bytes → ℕ → Type 0
  Prints result text n = (s1 : S) × (result ≡ some (s1, text ++ drop n content))
