-- ===== src/Examples/Sockets.antt =====
-- libmixp/socket.c with a process that can open one descriptor, and a resolver that knows one host.
use libmixp.Base.{
  ℕ, ◌≡◌, refl, Bool, true, false, Option, none, some, Bytes, ◌==◌, if◌then◌else◌, codes, ◌+◌, ◌++◌,
}
use libmixp.Tokenizer.{token, behind}
use libmixp.Addr.{
  ℤ, pos, mixp_srv_addr_parse, try_schemes, or_next, cmpprefix, parse_uri_unix, parse_old_tcp,
  old_tcp, copied, mixp_srv_addr_free, free_one, fresh_address,
}
use libmixp.Request.{same_bytes}
use libmixp.Socket.{
  af_inet, Net, get_port, any_host, dial_unix, announce_unix, dial_tcp_2, announce_tcp, mixp_dial,
  mixp_announce, dial_parsed, freed_after, mixp_dial_addr, connect_to, sock_unix, or_close, lookup,
  find_type, announce_file, and_then, listening,
}
use libmixp.Fcall.{Fcall, blank}
use libmixp.Request.{current_version}
use libmixp.Addr.Uris.{by_9p, scheme_text, location}
use libmixp.Socket.Kept.{Opens, Kept, Descriptors}
use libmixp.Socket.Hosts.{Resolves, dial_tcp_2-Kept}

abbrev Table : Type 0
Table = ℕ → Bool

abbrev set : ℕ → Bool → Table → Table
set fd b w q = if q == fd then b else w q

abbrev one_socket : Table → Bool → Table × Option ℕ
one_socket w true = (w, none)
one_socket w false = (set 5 true w, some 5)

abbrev known : Bytes → Option Bytes
known host = if same_bytes host (codes "home") then some (codes "1234") else none

abbrev process : Net Table
process = record {
  socket = λ d w. one_socket w (w 5);
  connect = λ fd sa w. (w, true);
  bind = λ fd sa w. (w, true);
  listen = λ fd w. (w, false);
  reuse = λ fd w. (w, true);
  remove_file = λ file w. w;
  restrict_file = λ file w. w;
  shutdown = λ fd w. w;
  close = λ fd w. set fd false w;
  gethostbyname = λ host w. (w, known host);
}

one_socket-Kept : (w : Table) (b : Bool) → w 5 ≡ b → Kept (λ w1. w1) w (one_socket w b)
one_socket-Kept w true e = λ q. refl
one_socket-Kept w false e = (e, λ q. refl)

abbrev descriptors : Descriptors process
descriptors = record {
  is_open = λ w. w;
  socket = λ d w. one_socket-Kept w (w 5) refl;
  shutdown = λ fd w q. refl;
  close = λ fd w q. refl;
  connect = λ fd sa w q. refl;
  bind = λ fd sa w q. refl;
  listen = λ fd w q. refl;
  reuse = λ fd w q. refl;
  remove_file = λ file w q. refl;
  restrict_file = λ file w q. refl;
  gethostbyname = λ host w q. refl;
}

abbrev none_open : Table
none_open fd = false

abbrev result : Option (Table × Option ℕ) → Option (Option ℕ × Bool)
result none = none
result (some (w, r)) = some (r, w 5)

dials_unix :
    result (mixp_dial process (some (codes "9p:unix:/tmp/s")) none_open) ≡ some (some 5, true)
unfolding mixp_dial dial_parsed mixp_srv_addr_parse try_schemes or_next cmpprefix parse_uri_unix
    freed_after mixp_srv_addr_free free_one fresh_address mixp_dial_addr dial_unix connect_to
    sock_unix or_close
dials_unix = refl

-- The host of the old notation is an array of a function that has returned.
faults_old : result (mixp_dial process (some (codes "tcp!home!80")) none_open) ≡ none
unfolding mixp_dial dial_parsed mixp_srv_addr_parse try_schemes or_next cmpprefix parse_old_tcp
    old_tcp copied freed_after mixp_srv_addr_free free_one fresh_address
faults_old = refl

announce_closes :
    result (some (mixp_announce process (codes "unix!/tmp/s") none_open)) ≡ some (none, false)
unfolding mixp_announce lookup behind find_type same_bytes token announce_unix announce_file
    sock_unix and_then listening or_close
announce_closes = refl

dial_tcp_2-Kept_example :
    ((address : Bytes) (w : Table) → Kept (λ w1. w1) w (dial_unix process address w))
    × ((file : Bytes) (w : Table) → Kept (λ w1. w1) w (announce_unix process file w))
    × ((host : Bytes) (port : ℤ) (w : Table)
        → Resolves process descriptors host
        → Kept (λ w1. w1) w (dial_tcp_2 process host port w))
    × ((addr : Bytes) (w : Table)
        → Resolves process descriptors (get_port addr).0
        → Kept (λ w1. w1) w (announce_tcp process addr w))
    × ((host : Bytes) (port : ℕ) (w : Table) (fd : ℕ)
        → same_bytes host any_host ≡ false
        → ((w1 : Table) → (process.gethostbyname host w1).1 ≡ none)
        → (process.socket af_inet w).1 ≡ some fd
        → (w2 : Table) × (dial_tcp_2 process host (pos port) w ≡ (w2, none))
          × Opens (λ w1. w1) w w2 fd)
dial_tcp_2-Kept_example = dial_tcp_2-Kept process descriptors

abbrev home : Bytes
home = codes "home"

abbrev port : Bytes
port = codes "80"

abbrev uri : Bytes
uri = scheme_text by_9p ++ location home (some port) none

abbrev answers : ℕ → Table → Fcall → Table × Option Fcall
answers fd w f = (w, some (record blank { type = f.type + 1; version = some current_version }))
