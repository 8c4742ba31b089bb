-- ===== src/Addr/Uris.antt =====
-- What `mixp_srv_addr_parse` of libmixp/addr.c makes of the addresses of the URI schemes.
use libmixp.Base.{
  ℕ, zero, suc, ◌≤◌, ◌≡◌, refl, ◌∙◌, false, Option, none, some, [], ◌∷◌, ◌++◌, Bytes, length,
  replicate, ltb_le, ◌==◌, if_false,
}
use libmixp.Tokenizer.Paths.{Lacks}
use libmixp.Fatal.{digit_loop}
use libmixp.Addr.{
  tcp, unix, ℤ, pos, negsuc, null, heap, ServerAddress, parsed, buffer_size, fresh_address,
  one_slash, from_one_slash, parse_uri_unix, cmpprefix, scheme_9p, scheme_tcp, scheme_tcp_short,
  scheme_short, scheme_ninep, nine_p, or_next, try_schemes, mixp_srv_addr_parse,
}

pub Lacks-append : (d : ℕ) (v w : Bytes) → Lacks d v → Lacks d w → Lacks d (v ++ w)
Lacks-append d [] w l k = k
Lacks-append d (c ∷ v) w (first, l) k = (first, Lacks-append d v w l k)

pub data Scheme : Type 0 where
  by_9p by_tcp by_tcp_short by_short by_ninep : Scheme

abbrev pub scheme_text : Scheme → Bytes
scheme_text by_9p = scheme_9p
scheme_text by_tcp = scheme_tcp
scheme_text by_tcp_short = scheme_tcp_short
scheme_text by_short = scheme_short
scheme_text by_ninep = scheme_ninep

abbrev pub port_text : Option Bytes → Bytes
port_text none = []
port_text (some digits) = b':' ∷ digits

abbrev pub path_text : Option Bytes → Bytes
path_text none = []
path_text (some path) = b'/' ∷ path

-- The part of an address behind the scheme.
abbrev pub location : Bytes → Option Bytes → Option Bytes → Bytes
location host port path = (host ++ port_text port) ++ path_text path

-- The digits are those of the number, or there is no port.
abbrev pub PortIs : Option Bytes → ℤ → Type 0
PortIs none z = z ≡ negsuc 0
PortIs (some digits) z = (room : ℕ) × (n : ℕ) × (digit_loop room n [] ≡ some digits) × (z ≡ pos n)

abbrev pub path_or_root : Option Bytes → Bytes
path_or_root none = b'/' ∷ []
path_or_root (some path) = b'/' ∷ path

abbrev pub tcp_address : Bytes → Bytes → ℤ → Option Bytes → ServerAddress
tcp_address text host z path = record {
  proto = tcp;
  port = z;
  addrstr = heap text;
  hostname = heap host;
  username = null;
  key = null;
  path = heap (path_or_root path);
}

parse_short :
    (addr : Bytes) → length addr ≤ buffer_size → mixp_srv_addr_parse (some addr) ≡ try_schemes addr
unfolding mixp_srv_addr_parse
parse_short addr h = if_false _ (ltb_le buffer_size (length addr) h)

-- "9p:unix:"
abbrev pub unix_text : Bytes
unix_text = nine_p (b'u' ∷ b'n' ∷ b'i' ∷ b'x' ∷ b':' ∷ [])

one_slash-path :
    (n c : ℕ) (path : Bytes)
    → (c == b'/') ≡ false
    → one_slash (replicate n b'/' ++ c ∷ path) ≡ b'/' ∷ c ∷ path
unfolding one_slash
one_slash-path zero c path h = rw h
one_slash-path (suc n) c path h = one_slash-path n c path h

try_unix :
    (rest : Bytes)
    → let text = unix_text ++ b'/' ∷ rest in
      try_schemes text ≡ parse_uri_unix (b'/' ∷ rest) text unix
unfolding try_schemes cmpprefix or_next
try_unix rest = refl

-- After `9p:unix:`, any number of slashes before a path counts as one; there is no host and no port.
pub mixp_srv_addr_parse-unix :
    (n c : ℕ) (path : Bytes)
    → (c == b'/') ≡ false
    → length (unix_text ++ b'/' ∷ (replicate n b'/' ++ c ∷ path)) ≤ buffer_size
    → let text = unix_text ++ b'/' ∷ (replicate n b'/' ++ c ∷ path) in
      mixp_srv_addr_parse (some text)
      ≡ parsed (record {
        proto = unix;
        port = negsuc 0;
        addrstr = heap text;
        hostname = heap [];
        username = null;
        key = null;
        path = heap (b'/' ∷ c ∷ path);
      })
unfolding parse_uri_unix fresh_address from_one_slash
mixp_srv_addr_parse-unix n c path h fits =
    let rest = replicate n b'/' ++ c ∷ path in
    parse_short (unix_text ++ b'/' ∷ rest) fits
    ∙ try_unix rest
    ∙ rw (one_slash-path n c path h) refl
