-- ===== src/Socket.antt =====
-- libmixp/socket.c: the descriptors for an address. The calls of the operating system and its resolver are the
-- parameter `net` on the state `W`; -1 is `none`, and for the calls that only succeed or fail, `true` is
-- success. `signal` has no counterpart.
pub mod Hosts
pub mod Kept
use libmixp.Base.{
  ℕ, zero, suc, ◌+◌, ◌-◌, ◌%◌, ◌^◌, Bool, true, false, Option, none, some, List, [], ◌∷◌, Bytes,
  take, codes, ◌==◌, if◌then◌else◌,
}
use libmixp.Tokenizer.{token, behind}
use libmixp.Request.{same_bytes}
use libmixp.Addr.{
  Proto, tcp, unix, ℤ, pos, negsuc, Pointer, null, heap, frame, ServerAddress, Parsed, parsed,
  refused, overruns, atoi, mixp_srv_addr_parse, Freed, no_address, freed, mixp_srv_addr_free,
}

-- `inet none` is INADDR_ANY.
pub data Sockaddr : Type 0 where
  local : Bytes → Sockaddr
  inet : Option Bytes → ℕ → Sockaddr

pub data Domain : Type 0 where
  af_unix af_inet : Domain

pub record Net {ℓ} (W : Type ℓ) : Type ℓ where
  pub socket : Domain → W → W × Option ℕ
  pub connect : ℕ → Sockaddr → W → W × Bool
  pub bind : ℕ → Sockaddr → W → W × Bool
  pub listen : ℕ → W → W × Bool
  pub reuse : ℕ → W → W × Bool
  pub remove_file : Bytes → W → W
  pub restrict_file : Bytes → W → W
  pub shutdown : ℕ → W → W
  pub close : ℕ → W → W
  pub gethostbyname : Bytes → W → W × Option Bytes

-- The text is cut at the first `!`, and the number behind it is read as by `strtol`; the test for an invalid
-- number asks for an empty text with something behind it, which there is not.
unfoldable pub get_port : Bytes → Bytes × ℤ
get_port addr = elim (behind b'!' addr) [
  | [] ↦ (addr, negsuc 0)
  | c ∷ s ↦ (token b'!' addr, atoi s)
]

abbrev pub sun_path_size : ℕ
sun_path_size = 108

abbrev pub unix_sockaddr : Bytes → Sockaddr
unix_sockaddr address = local (take sun_path_size address)

-- `htons`
abbrev pub net_port : ℕ → ℕ
net_port port = port % 2 ^ 16

abbrev pub any_host : Bytes
any_host = b'*' ∷ []

module _ {ℓ} {W : Type ℓ} (net : Net W) where
  -- What a call on a new descriptor gives: the descriptor, or none once it is closed.
  unfoldable pub or_close : ℕ → W × Bool → W × Option ℕ
  or_close fd (w, true) = (w, some fd)
  or_close fd (w, false) = (net.close fd w, none)

  -- The next call if this one succeeds, or the label `fail`.
  unfoldable pub and_then : ℕ → (W → W × Option ℕ) → W × Bool → W × Option ℕ
  and_then fd next (w, true) = next w
  and_then fd next (w, false) = (net.close fd w, none)

  unfoldable pub sock_unix : W → W × Option ℕ
  sock_unix w = net.socket af_unix w

  unfoldable pub connect_to : Sockaddr → W × Option ℕ → W × Option ℕ
  connect_to sa (w, none) = (w, none)
  connect_to sa (w, some fd) = or_close fd (net.connect fd sa w)

  unfoldable pub dial_unix : Bytes → W → W × Option ℕ
  dial_unix address w = connect_to (unix_sockaddr address) (sock_unix w)

  unfoldable pub listening : ℕ → W → W × Option ℕ
  listening fd w = or_close fd (net.listen fd w)

  unfoldable pub announce_file : Bytes → W × Option ℕ → W × Option ℕ
  announce_file file (w, none) = (w, none)
  announce_file file (w, some fd) =
      and_then fd
        (λ w1.
          and_then fd (λ w2. listening fd (net.restrict_file file w2))
            (net.bind fd (unix_sockaddr file) (net.remove_file file w1)))
        (net.reuse fd w)

  unfoldable pub announce_unix : Bytes → W → W × Option ℕ
  announce_unix file w = announce_file file (sock_unix w)

  -- A socket and the address that goes with it.
  unfoldable pub resolved : ℕ → ℕ → W × Option Bytes → W × Option (ℕ × Sockaddr)
  resolved port fd (w, none) = (w, none)
  resolved port fd (w, some addr) = (w, some (fd, inet (some addr) (net_port port)))

  unfoldable pub host_address : Bytes → ℕ → W × Option ℕ → W × Option (ℕ × Sockaddr)
  host_address host port (w, none) = (w, none)
  host_address host port (w, some fd) =
      if same_bytes host any_host
      then (w, some (fd, inet none (net_port port)))
      else resolved port fd (net.gethostbyname host w)

  unfoldable pub sock_tcp_2 : Bytes → ℤ → W → W × Option (ℕ × Sockaddr)
  sock_tcp_2 host (negsuc n) w = (w, none)
  sock_tcp_2 host (pos port) w = host_address host port (net.socket af_inet w)

  unfoldable pub connect_tcp : W × Option (ℕ × Sockaddr) → W × Option ℕ
  connect_tcp (w, none) = (w, none)
  connect_tcp (w, some (fd, sa)) = or_close fd (net.connect fd sa w)

  unfoldable pub dial_tcp_2 : Bytes → ℤ → W → W × Option ℕ
  dial_tcp_2 host port w = connect_tcp (sock_tcp_2 host port w)

  unfoldable pub dial_tcp : Bytes → W → W × Option ℕ
  dial_tcp host w = let (name, port) = get_port host in dial_tcp_2 name port w

  unfoldable pub announce_at : W × Option (ℕ × Sockaddr) → W × Option ℕ
  announce_at (w, none) = (w, none)
  announce_at (w, some (fd, sa)) = and_then fd (listening fd) (net.bind fd sa w)

  unfoldable pub announce_tcp : Bytes → W → W × Option ℕ
  announce_tcp host w = let (name, port) = get_port host in announce_at (sock_tcp_2 name port w)

  abbrev pub Addrtab : Type ℓ
  Addrtab = List (Bytes × (Bytes → W → W × Option ℕ))

  -- The function of the first entry with this type.
  unfoldable pub find_type : Bytes → Addrtab → Option (Bytes → W → W × Option ℕ)
  find_type type [] = none
  find_type type ((name, fn) ∷ tab) = if same_bytes name type then some fn else find_type type tab

  unfoldable pub lookup : Bytes → Addrtab → W → W × Option ℕ
  lookup address tab w = elim (behind b'!' address) [
    | [] ↦ (w, none)
    | c ∷ addr ↦ elim (find_type (token b'!' address) tab) [
      | none ↦ (w, none)
      | some fn ↦ fn addr w
    ]
  ]

  abbrev pub dtab : Addrtab
  dtab = (codes "tcp", dial_tcp) ∷ (codes "unix", dial_unix) ∷ []

  abbrev pub atab : Addrtab
  atab = (codes "tcp", announce_tcp) ∷ (codes "unix", announce_unix) ∷ []

  unfoldable pub mixp_announce : Bytes → W → W × Option ℕ
  mixp_announce address w = lookup address atab w

  -- `none` is a read through NULL or of an array of a function that has returned.
  unfoldable pub mixp_dial_addr : ServerAddress → W → Option (W × Option ℕ)
  mixp_dial_addr addr w = elim addr.proto [
    | tcp ↦ elim addr.hostname [
      | heap host ↦ some (dial_tcp_2 host addr.port w)
      | null ↦ none
      | frame host ↦ none
    ]
    | unix ↦ elim addr.path [
      | heap path ↦ some (dial_unix path w)
      | null ↦ none
      | frame path ↦ none
    ]
  ]

  unfoldable pub freed_after : Freed → Option (W × Option ℕ) → Option (W × Option ℕ)
  freed_after (freed blocks) r = r
  freed_after no_address r = r
  freed_after Freed.faults r = none

  unfoldable pub dial_parsed : Parsed → W → Option (W × Option ℕ)
  dial_parsed (parsed addr) w = freed_after (mixp_srv_addr_free (some addr)) (mixp_dial_addr addr w)
  dial_parsed (refused why) w = some (w, none)
  dial_parsed overruns w = none

  unfoldable pub mixp_dial : Option Bytes → W → Option (W × Option ℕ)
  mixp_dial address w = dial_parsed (mixp_srv_addr_parse address) w
