-- ===== src/Addr.antt =====
-- libmixp/addr.c and include/9p-mixp/srv_addr.h: the addresses of servers. A string is the list of its
-- bytes without the NUL. A `char *` is NULL, a block of the heap or an array in a function's frame.
pub mod Decimal
pub mod Uris
pub mod Buffers
pub mod Blocks
use libmixp.Base.{
  ℕ, zero, suc, ◌+◌, ◌-◌, ◌*◌, Bool, true, false, ◌&&◌, ◌||◌, Option, none, some, List, [], ◌∷◌,
  ◌++◌, Bytes, length, drop, ltb, leb, ◌==◌, if◌then◌else◌,
}
use libmixp.Tokenizer.{token, behind}

pub data Proto : Type 0 where
  tcp unix : Proto

-- `negsuc n` is -(n + 1).
pub data ℤ : Type 0 where
  pos : ℕ → ℤ
  negsuc : ℕ → ℤ

pub data Pointer : Type 0 where
  null : Pointer
  heap : Bytes → Pointer
  frame : Bytes → Pointer

pub record ServerAddress : Type 0 where
  pub proto : Proto
  pub port : ℤ
  pub addrstr : Pointer
  pub hostname : Pointer
  pub username : Pointer
  pub key : Pointer
  pub path : Pointer

-- `refused` is NULL, and `overruns` a write behind the end of the buffer.
pub data Refusal : Type 0 where
  null_address too_long unknown_scheme : Refusal

pub data Parsed : Type 0 where
  parsed : ServerAddress → Parsed
  refused : Refusal → Parsed
  overruns : Parsed

abbrev pub buffer_size : ℕ
buffer_size = 4096

unfoldable pub is_digit : ℕ → Bool
is_digit c = leb b'0' c && leb c b'9'

unfoldable pub is_space : ℕ → Bool
is_space c = (c == 32) || (leb 9 c && leb c 13)

-- `atoi` of the C library where its result fits an `int`; it is undefined elsewhere.
unfoldable pub digits_from : ℕ → Bytes → ℕ
digits_from n [] = n
digits_from n (c ∷ s) =
    let more = digits_from (n * 10 + (c - b'0')) s in if is_digit c then more else n

unfoldable pub negated : ℕ → ℤ
negated zero = pos 0
negated (suc n) = negsuc n

unfoldable pub signed : Bytes → ℤ
signed [] = pos 0
signed (c ∷ s) =
    if c == b'-'
    then negated (digits_from 0 s)
    else (if c == b'+' then pos (digits_from 0 s) else pos (digits_from 0 (c ∷ s)))

unfoldable pub skip_space : Bytes → Bytes
skip_space [] = []
skip_space (c ∷ s) = if is_space c then skip_space s else c ∷ s

unfoldable pub atoi : Bytes → ℤ
atoi s = signed (skip_space s)

-- What a string of the buffer holds when it has been copied there with its NUL.
unfoldable pub copied : Bytes → Option Bytes
copied s = if ltb (length s) buffer_size then some s else none

-- The buffer split at its first `:`, if it has one.
unfoldable pub with_host : ServerAddress → Bytes → Bytes → ServerAddress
with_host a buffer [] = record a { hostname = heap buffer }
with_host a buffer (c ∷ rest) = record a { hostname = heap (token b':' buffer); port = atoi rest }

unfoldable pub host_of : ServerAddress → Option Bytes → Parsed
host_of a none = overruns
host_of a (some buffer) = parsed (with_host a buffer (behind b':' buffer))

-- `calloc` and the three fields that all of the functions set.
unfoldable pub fresh_address : Bytes → Proto → ServerAddress
fresh_address fulladdr proto = record {
  proto = proto;
  port = negsuc 0;
  addrstr = heap fulladdr;
  hostname = null;
  username = null;
  key = null;
  path = null;
}

-- With the part of `addr` from its first `/` on.
unfoldable pub split_uri : Bytes → ServerAddress → Bytes → Parsed
split_uri addr a [] = host_of (record a { path = heap (b'/' ∷ []) }) (copied addr)
split_uri addr a (c ∷ rest) =
    host_of (record a { path = heap (c ∷ rest) }) (copied (token b'/' addr))

unfoldable pub parse_uri : Bytes → Bytes → Proto → Parsed
parse_uri addr fulladdr proto = split_uri addr (fresh_address fulladdr proto) (behind b'/' addr)

-- `while (addr[1]=='/') addr++`, behind a first `/`
unfoldable pub one_slash : Bytes → Bytes
one_slash [] = b'/' ∷ []
one_slash (c ∷ s) = if c == b'/' then one_slash s else b'/' ∷ c ∷ s

unfoldable pub from_one_slash : Bytes → Bytes
from_one_slash [] = []
from_one_slash (c ∷ s) = if c == b'/' then one_slash s else c ∷ s

unfoldable pub parse_uri_unix : Bytes → Bytes → Proto → Parsed
parse_uri_unix addr fulladdr proto = parsed (record (fresh_address fulladdr proto) {
  path = heap (from_one_slash addr);
  hostname = heap [];
})

-- `hostname` is left at the array of this function's frame.
unfoldable pub old_tcp : Bytes → Option Bytes → Parsed
old_tcp addr none = overruns
old_tcp addr (some buffer) =
    let rest = behind b'!' buffer in
    parsed (record (fresh_address addr tcp) {
      port = elim rest [ [] ↦ negsuc 0 | c ∷ s ↦ atoi s ];
      hostname = frame (token b'!' buffer);
      path = heap (b'/' ∷ []);
    })

unfoldable pub parse_old_tcp : Bytes → Parsed
parse_old_tcp addr = old_tcp addr (copied addr)

unfoldable pub cmpprefix : Bytes → Bytes → Option Bytes
cmpprefix str [] = some str
cmpprefix [] (p ∷ prefix) = none
cmpprefix (c ∷ str) (p ∷ prefix) = if c == p then cmpprefix str prefix else none

-- "9p:"
abbrev pub nine_p : Bytes → Bytes
nine_p s = b'9' ∷ b'p' ∷ b':' ∷ s

abbrev pub scheme_9p : Bytes
scheme_9p = nine_p (b'/' ∷ b'/' ∷ [])

abbrev pub scheme_tcp : Bytes
scheme_tcp = nine_p (b't' ∷ b'c' ∷ b'p' ∷ b':' ∷ b'/' ∷ b'/' ∷ [])

abbrev pub scheme_tcp_short : Bytes
scheme_tcp_short = nine_p (b't' ∷ b'c' ∷ b'p' ∷ b':' ∷ b'/' ∷ [])

abbrev pub scheme_unix : Bytes
scheme_unix = nine_p (b'u' ∷ b'n' ∷ b'i' ∷ b'x' ∷ b':' ∷ b'/' ∷ [])

abbrev pub scheme_short : Bytes
scheme_short = nine_p (b'/' ∷ [])

abbrev pub scheme_ninep : Bytes
scheme_ninep = b'n' ∷ b'i' ∷ b'n' ∷ b'e' ∷ b'p' ∷ b':' ∷ b'/' ∷ b'/' ∷ []

abbrev pub scheme_old : Bytes
scheme_old = b't' ∷ b'c' ∷ b'p' ∷ b'!' ∷ []

-- `if ((c=cmpprefix(addr, …))) return parse(c, …)`, and the tests behind it.
unfoldable pub or_next : Option Bytes → (Bytes → Parsed) → Parsed → Parsed
or_next none parse next = next
or_next (some c) parse next = parse c

unfoldable pub try_schemes : Bytes → Parsed
try_schemes addr =
    let as_tcp = λ (c : Bytes). parse_uri c addr tcp in
    or_next (cmpprefix addr scheme_9p) as_tcp (
      or_next (cmpprefix addr scheme_tcp) as_tcp (
        or_next (cmpprefix addr scheme_tcp_short) as_tcp (
          or_next (cmpprefix addr scheme_unix) (λ c. parse_uri_unix (drop 8 addr) addr unix)
            (or_next (cmpprefix addr scheme_short) as_tcp (
              or_next (cmpprefix addr scheme_ninep) as_tcp (
                or_next (cmpprefix addr scheme_old) (λ c. parse_old_tcp (drop 4 addr))
                  (refused unknown_scheme)))))))

unfoldable pub mixp_srv_addr_parse : Option Bytes → Parsed
mixp_srv_addr_parse none = refused null_address
mixp_srv_addr_parse (some addr) =
    if ltb buffer_size (length addr) then refused too_long else try_schemes addr

-- `free` of a pointer to a frame is undefined: `faults`. NULL is passed over.
pub data Freed : Type 0 where
  no_address faults : Freed
  freed : List Bytes → Freed

unfoldable pub free_one : Pointer → Freed → Freed
free_one p no_address = no_address
free_one p faults = faults
free_one null (freed blocks) = freed blocks
free_one (heap s) (freed blocks) = freed (blocks ++ s ∷ [])
free_one (frame s) (freed blocks) = faults

-- The blocks in the order in which they are given back; the record itself is the last.
unfoldable pub mixp_srv_addr_free : Option ServerAddress → Freed
mixp_srv_addr_free none = no_address
mixp_srv_addr_free (some a) =
    free_one a.username
      (free_one a.path (free_one a.key (free_one a.hostname (free_one a.addrstr (freed [])))))
