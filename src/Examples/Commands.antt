-- ===== src/Examples/Commands.antt =====
-- The commands of cmd/ixpc.c on a server that has one directory.
use libmixp.Base.{
  ℕ, suc, ◌+◌, ◌^◌, ◌≡◌, refl, true, false, Option, some, List, [], ◌∷◌, Bytes, codes, length,
  read_at, ◌==◌, if◌then◌else◌,
}
use libmixp.Compound.{Qid, zero_qid, strlen}
use libmixp.Fcall.{Fcall, blank}
use libmixp.Stat.{Stat}
use libmixp.Stat.RoundTrip.{entry}
use libmixp.Client.{Cfid, Pool}
use libmixp.Fatal.{digit_loop}
use libmixp.Request.{same_bytes}
use libmixp.Ixpc.{
  comp_stat, strcmp_le, print_stat, line, str_of_mode, setrwx, print_length, or_empty,
}
use libmixp.Ixpc.Entries.{qsort, place, print_entries}
use libmixp.Ixpc.Listing.{directory}

abbrev named : Bytes → ℕ → Stat
named name mode = record {
  type = 0;
  dev = 0;
  qid = zero_qid;
  mode = mode;
  atime = 0;
  mtime = 0;
  length = 0;
  name = some name;
  uid = some [];
  gid = some [];
  muid = some [];
}

abbrev root : Stat
root = named (codes "/") (2 ^ 31)

abbrev entries : List Stat
entries = named (codes "b") 0 ∷ named (codes "a") (2 ^ 31) ∷ []

abbrev content : Bytes
content = directory entries

abbrev read_reply : ℕ → ℕ → Fcall
read_reply o n = record blank {
  type = 117;
  count = length (read_at content o n);
  payload = some (read_at content o n);
}

abbrev other_reply : ℕ → Fcall
other_reply type = record blank {
  type = type + 1;
  nwqid = 16;
  iounit = 200;
  nstat = length (entry root);
  stat = some (entry root);
}

abbrev serve : ℕ → Fcall → ℕ × Option Fcall
serve n f =
    (suc n, some (if f.type == 116 then read_reply f.offset f.count else other_reply f.type))

abbrev no_qid : ℕ → Qid
no_qid n = zero_qid

abbrev fresh : Pool
fresh = record { lastfid = 1; freefid = [] }

abbrev fid : Cfid
fid = record { fid = 2; qid = zero_qid; mode = 0; is_open = 1; iounit = 200; offset = 0 }

abbrev used : Pool
used = record { lastfid = 2; freefid = [] }

abbrev no_time : ℕ → Bytes
no_time seconds = []

-- The directory comes first, and its name gets a slash.
shows_sorted : print_entries no_time false (qsort entries) ≡ codes "a/\nb\n"
unfolding print_entries qsort place comp_stat strcmp_le print_stat same_bytes strlen
shows_sorted = refl

shows_details : print_stat no_time (named (codes "b") 0o644) true ≡ codes "--rw-r--r--       0  b\n"
unfolding print_stat line str_of_mode setrwx print_length or_empty digit_loop strlen
shows_details = refl
