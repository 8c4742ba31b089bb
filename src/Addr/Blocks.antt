-- ===== src/Addr/Blocks.antt =====
-- Which addresses `mixp_srv_addr_free` of libmixp/addr.c can give back.
use libmixp.Base.{
  ◌≡◌, refl, ◌≤◌, ◌∙◌, lt→ltb, length, ltb_le, if_false, Option, none, some, [], ◌∷◌, ◌++◌, Bytes,
  drop, ltb, arith, if_elim,
}
use libmixp.Tokenizer.{token, behind}
use libmixp.Addr.{
  Parsed, parsed, refused, overruns, Proto, heap, buffer_size, copied, with_host, host_of,
  fresh_address, split_uri, parse_uri, old_tcp, parse_old_tcp, parse_uri_unix, cmpprefix,
  scheme_old, or_next, unknown_scheme, try_schemes, mixp_srv_addr_parse, freed, faults, free_one,
  mixp_srv_addr_free,
}

-- What was parsed has three blocks, and freeing it gives back just these.
abbrev pub Frees : Parsed → Type 0
Frees (parsed a) =
    (addrstr : Bytes) × (hostname : Bytes) × (path : Bytes) × (a.addrstr ≡ heap addrstr)
    × (a.hostname ≡ heap hostname)
    × (a.path ≡ heap path)
    × (mixp_srv_addr_free (some a) ≡ freed (addrstr ∷ hostname ∷ path ∷ []))
Frees (refused why) = Unit
Frees overruns = Unit

-- Parsed, and freeing it faults.
abbrev pub FreeFaults : Parsed → Type 0
FreeFaults (parsed a) = mixp_srv_addr_free (some a) ≡ faults
FreeFaults (refused why) = ⊥
FreeFaults overruns = ⊥

with_host-Frees :
    (text path buffer rest : Bytes) (proto : Proto)
    → Frees
        (parsed (with_host (record (fresh_address text proto) { path = heap path }) buffer rest))
unfolding with_host fresh_address mixp_srv_addr_free free_one
with_host-Frees text path buffer [] proto = (text, buffer, path, refl, refl, refl, refl)
with_host-Frees text path buffer (c ∷ rest) proto =
    (text, token b':' buffer, path, refl, refl, refl, refl)

host_of-Frees :
    (text path : Bytes) (buffer : Option Bytes) (proto : Proto)
    → Frees (host_of (record (fresh_address text proto) { path = heap path }) buffer)
unfolding host_of
host_of-Frees text path none proto = tt
host_of-Frees text path (some buffer) proto =
    with_host-Frees text path buffer (behind b':' buffer) proto

split_uri-Frees :
    (addr text rest : Bytes) (proto : Proto)
    → Frees (split_uri addr (fresh_address text proto) rest)
unfolding split_uri
split_uri-Frees addr text [] proto = host_of-Frees text _ (copied addr) proto
split_uri-Frees addr text (c ∷ rest) proto =
    host_of-Frees text (c ∷ rest) (copied (token b'/' addr)) proto

parse_uri-Frees : (addr text : Bytes) (proto : Proto) → Frees (parse_uri addr text proto)
unfolding parse_uri
parse_uri-Frees addr text proto = split_uri-Frees addr text (behind b'/' addr) proto

parse_uri_unix-Frees : (addr text : Bytes) (proto : Proto) → Frees (parse_uri_unix addr text proto)
unfolding parse_uri_unix fresh_address mixp_srv_addr_free free_one
parse_uri_unix-Frees addr text proto = (text, [], _, refl, refl, refl, refl)

or_next-Frees :
    (o : Option Bytes) (parse : Bytes → Parsed) (next : Parsed)
    → ((c : Bytes) → Frees (parse c))
    → Frees next
    → Frees (or_next o parse next)
unfolding or_next
or_next-Frees none parse next h k = k
or_next-Frees (some c) parse next h k = h c

none_left :
    (o : Option Bytes) (parse : Bytes → Parsed)
    → o ≡ none
    → Frees (or_next o parse (refused unknown_scheme))
unfolding or_next
none_left none parse h = tt
none_left (some c) parse h = cc

try_schemes-Frees : (addr : Bytes) → cmpprefix addr scheme_old ≡ none → Frees (try_schemes addr)
unfolding try_schemes
try_schemes-Frees addr new =
    or_next-Frees _ _ _ (λ c. parse_uri-Frees c addr _)
      (or_next-Frees _ _ _ (λ c. parse_uri-Frees c addr _)
        (or_next-Frees _ _ _ (λ c. parse_uri-Frees c addr _)
          (or_next-Frees _ _ _ (λ c. parse_uri_unix-Frees (drop 8 addr) addr _)
            (or_next-Frees _ _ _ (λ c. parse_uri-Frees c addr _)
              (or_next-Frees _ _ _ (λ c. parse_uri-Frees c addr _) (none_left _ _ new))))))

parse-Frees :
    (addr : Bytes) → cmpprefix addr scheme_old ≡ none → Frees (mixp_srv_addr_parse (some addr))
unfolding mixp_srv_addr_parse
parse-Frees addr new =
    if_elim Frees (ltb buffer_size (length addr)) _ _ (λ e. tt) (λ e. try_schemes-Frees addr new)

old_tcp-FreeFaults : (s : Bytes) → length s ≤ 4092 → FreeFaults (parse_old_tcp s)
unfolding parse_old_tcp old_tcp copied mixp_srv_addr_free free_one fresh_address
old_tcp-FreeFaults s h = rw (lt→ltb (length s) buffer_size (omega (arith, h))) refl

try_old : (rest : Bytes) → try_schemes (scheme_old ++ rest) ≡ parse_old_tcp rest
unfolding try_schemes cmpprefix or_next
try_old rest = refl

parse_old :
    (rest : Bytes)
    → length rest ≤ 4092
    → mixp_srv_addr_parse (some (scheme_old ++ rest)) ≡ parse_old_tcp rest
unfolding mixp_srv_addr_parse
parse_old rest h =
    if_false _ (ltb_le buffer_size (length (scheme_old ++ rest)) (omega (arith, h))) ∙ try_old rest

-- Every address that does not start with `tcp!`, if it is parsed, has three blocks, and freeing it gives
-- back each of them once and nothing else. Every address that starts with `tcp!` and is 4096 bytes at
-- most is parsed, and freeing it faults.
pub mixp_srv_addr_free-parse :
    ((addr : Bytes) → cmpprefix addr scheme_old ≡ none → Frees (mixp_srv_addr_parse (some addr)))
    × ((rest : Bytes)
        → length rest ≤ 4092
        → FreeFaults (mixp_srv_addr_parse (some (scheme_old ++ rest))))
mixp_srv_addr_free-parse =
    (parse-Frees, λ rest h. rw (parse_old rest h) (old_tcp-FreeFaults rest h))
