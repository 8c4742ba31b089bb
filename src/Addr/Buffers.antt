-- ===== src/Addr/Buffers.antt =====
-- No address makes the functions of libmixp/addr.c write behind the end of their buffers.
use libmixp.Base.{
  ℕ, ◌+◌, ◌<◌, ◌≤◌, ◌≡◌, refl, Option, none, some, [], ◌∷◌, Bytes, length, drop, length-drop, ltb,
  ltb→le, arith, if_elim,
}
use libmixp.Tokenizer.{token, behind}
use libmixp.Addr.{
  Parsed, parsed, refused, overruns, buffer_size, copied, host_of, split_uri, parse_uri, old_tcp,
  parse_old_tcp, parse_uri_unix, cmpprefix, ServerAddress, Proto, or_next, try_schemes,
  mixp_srv_addr_parse,
}

-- No write behind the end of a buffer.
abbrev pub IsWithin : Parsed → Type 0
IsWithin (parsed a) = Unit
IsWithin (refused why) = Unit
IsWithin overruns = ⊥

abbrev Fits : Bytes → Type 0
Fits s = length s < buffer_size

copied-some : (s : Bytes) → Fits s → copied s ≡ some s
unfolding copied
copied-some s h = ground arith

token-le : (d : ℕ) (s : Bytes) → length (token d s) ≤ length s
unfolding token
token-le d [] = omega arith
token-le d (c ∷ s) = ground (arith, token-le d s)

host_of-IsWithin : (a : ServerAddress) (s : Bytes) → Fits s → IsWithin (host_of a (copied s))
unfolding host_of
host_of-IsWithin a s h = rw (copied-some s h) tt

split_uri-IsWithin :
    (addr : Bytes) (a : ServerAddress) (rest : Bytes) → Fits addr → IsWithin (split_uri addr a rest)
unfolding split_uri
split_uri-IsWithin addr a [] h = host_of-IsWithin _ addr h
split_uri-IsWithin addr a (c ∷ rest) h =
    host_of-IsWithin _ (token b'/' addr) (omega (arith, h, token-le b'/' addr))

parse_uri-IsWithin :
    (addr fulladdr : Bytes) (proto : Proto) → Fits addr → IsWithin (parse_uri addr fulladdr proto)
unfolding parse_uri
parse_uri-IsWithin addr fulladdr proto h = split_uri-IsWithin addr _ (behind b'/' addr) h

parse_old_tcp-IsWithin : (addr : Bytes) → Fits addr → IsWithin (parse_old_tcp addr)
unfolding parse_old_tcp old_tcp
parse_old_tcp-IsWithin addr h = rw (copied-some addr h) tt

cmpprefix_length :
    (str prefix c : Bytes) → cmpprefix str prefix ≡ some c → length str ≡ length prefix + length c
unfolding cmpprefix
cmpprefix_length str [] c h = ground arith
cmpprefix_length [] (p ∷ prefix) c h = cc
cmpprefix_length (x ∷ str) (p ∷ prefix) c h = ground (arith, cmpprefix_length str prefix c)

or_next-IsWithin :
    (o : Option Bytes) (parse : Bytes → Parsed) (next : Parsed)
    → ((c : Bytes) → o ≡ some c → IsWithin (parse c))
    → IsWithin next
    → IsWithin (or_next o parse next)
unfolding or_next
or_next-IsWithin none parse next h k = k
or_next-IsWithin (some c) parse next h k = h c refl

module _ (addr : Bytes) (short : length addr ≤ buffer_size) where
  tcp-IsWithin :
      (prefix : Bytes) (next : Parsed)
      → 0 < length prefix
      → IsWithin next
      → IsWithin (or_next (cmpprefix addr prefix) (λ c. parse_uri c addr Proto.tcp) next)
  tcp-IsWithin prefix next long h =
      or_next-IsWithin (cmpprefix addr prefix) _ next
        (λ c e. parse_uri-IsWithin c addr _ (omega (arith, cmpprefix_length addr prefix c e))) h

  try_schemes-IsWithin : IsWithin (try_schemes addr)
  unfolding try_schemes parse_uri_unix
  try_schemes-IsWithin = tcp-IsWithin _ _ (omega arith) (
      tcp-IsWithin _ _ (omega arith) (
        tcp-IsWithin _ _ (omega arith) (
          or_next-IsWithin _ _ _ (λ c e. tt)
            (tcp-IsWithin _ _ (omega arith) (
              tcp-IsWithin _ _ (omega arith) (
                or_next-IsWithin (cmpprefix addr _) _ _
                  (λ c e.
                    parse_old_tcp-IsWithin (drop 4 addr)
                      (omega (arith, cmpprefix_length addr _ c e, length-drop 4 addr)))
                  tt))))))

-- Whatever the address, no copy of a part of it reaches behind the end of its buffer.
pub mixp_srv_addr_parse-IsWithin : (addr : Option Bytes) → IsWithin (mixp_srv_addr_parse addr)
unfolding mixp_srv_addr_parse
mixp_srv_addr_parse-IsWithin none = tt
mixp_srv_addr_parse-IsWithin (some addr) =
    if_elim IsWithin (ltb buffer_size (length addr)) _ _ (λ e. tt)
      (λ e. try_schemes-IsWithin addr (ltb→le buffer_size (length addr) e))
