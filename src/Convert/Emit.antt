-- ===== src/Convert/Emit.antt =====
-- In the mode MsgPack every scalar of convert.c is one bounded copy, and adjacent copies join.
use libmixp.Base.{
  ℕ, ◌+◌, ◌%◌, ◌^◌, ◌≤◌, ◌≡◌, refl, sym, ◌∙◌, List, [], ◌∷◌, ◌++◌, Bytes, length, length-append,
  drop, drop-write_at, Bool-cases, inl, inr, leb→le, write_at, write_at-write_at, write_at_nil,
  le→leb, if◌then◌else◌, arith,
}
use libmixp.Convert.{
  Message, msg_pack, has_room, le8, le16, le32, le64, pu8, pu16, pu32, pu64, psize, pu8_store,
  pu16_store, pu32_store, pu64_store,
}

unfoldable pub emit : Message → Bytes → Message
emit m bs =
    let stored = if has_room m (length bs) then write_at m.buf m.pos bs else m.buf in
    record m { buf = stored; pos = m.pos + length bs }

module _ (m : Message) (v : ℕ) (packing : m.mode ≡ msg_pack) where
  pub pu8-pack : pu8 m v ≡ (emit m (le8 v), v)
  unfolding pu8 pu8_store emit
  pu8-pack = rw packing

  pub pu16-pack : pu16 m v ≡ (emit m (le16 v), v)
  unfolding pu16 pu16_store emit
  pu16-pack = rw packing

  pub pu32-pack : pu32 m v ≡ (emit m (le32 v), v)
  unfolding pu32 pu32_store emit
  pu32-pack = rw packing

  pub psize-pack : psize m v ≡ (emit m (le32 (v % 2 ^ 32)), v)
  unfolding psize pu32_store emit
  psize-pack = rw packing

  pub pu64-pack : pu64 m v ≡ (emit m (le64 v), v)
  unfolding pu64 pu64_store emit
  pu64-pack = rw packing

pub emit-emit :
    (m : Message) (xs ys : Bytes)
    → m.pos + length (xs ++ ys) ≤ m.end
    → emit (emit m xs) ys ≡ emit m (xs ++ ys)
unfolding emit
emit-emit m xs ys room =
    rw
      (
        le→leb (m.pos + length xs) m.end (omega (arith, length-append xs ys)),
        le→leb (m.pos + length xs + length ys) m.end (omega (arith, length-append xs ys)),
        le→leb (m.pos + length (xs ++ ys)) m.end room,
        write_at-write_at m.buf m.pos (m.pos + length xs) xs ys refl,
      )
      (ground (arith, length-append xs ys))

-- A copy of nothing.
pub emit_nil : (m : Message) → emit m [] ≡ m
unfolding emit
emit_nil m = ground (arith, write_at_nil m.buf m.pos)

abbrev pub concat : List Bytes → Bytes
concat [] = []
concat (c ∷ cs) = c ++ concat cs

unfoldable pub emits : Message → List Bytes → Message
emits m [] = m
emits m (c ∷ cs) = emits (emit m c) cs

-- The cursor after some copies, whether or not they had room.
pub pos-emits : (m : Message) (cs : List Bytes) → (emits m cs).pos ≡ m.pos + length (concat cs)
unfolding emits emit
pos-emits m [] = omega arith
pos-emits m (c ∷ cs) = omega (arith, pos-emits (emit m c) cs, length-append c (concat cs))

pub end-emits : (m : Message) (cs : List Bytes) → (emits m cs).end ≡ m.end
unfolding emits emit
end-emits m [] = refl
end-emits m (c ∷ cs) = end-emits (emit m c) cs

-- Copies that have room together are one copy.
pub emits-concat :
    (m : Message) (cs : List Bytes)
    → m.pos + length (concat cs) ≤ m.end
    → emits m cs ≡ emit m (concat cs)
unfolding emits
emits-concat m [] room = sym (emit_nil m)
emits-concat m (c ∷ cs) room =
    emits-concat (emit m c) cs (unfold emit in omega (arith, length-append c (concat cs)))
    ∙ emit-emit m c (concat cs) room

pub mode-emits : (m : Message) (cs : List Bytes) → (emits m cs).mode ≡ m.mode
unfolding emits emit
mode-emits m [] = refl
mode-emits m (c ∷ cs) = mode-emits (emit m c) cs

pub emits-append : (m : Message) (xs ys : List Bytes) → emits m (xs ++ ys) ≡ emits (emits m xs) ys
unfolding emits
emits-append m [] ys = refl
emits-append m (c ∷ xs) ys = emits-append (emit m c) xs ys

pub emit_room :
    (m : Message) (bs : Bytes)
    → m.pos + length bs ≤ m.end
    → emit m bs ≡ record m { buf = write_at m.buf m.pos bs; pos = m.pos + length bs }
unfolding emit
emit_room m bs room = rw (le→leb (m.pos + length bs) m.end room)

drop-emit : (m : Message) (bs : Bytes) → drop m.end (emit m bs).buf ≡ drop m.end m.buf
unfolding emit
drop-emit m bs = elim (Bool-cases (has_room m (length bs))) [
  | inl fits ↦ rw fits (drop-write_at m.buf m.pos bs m.end (leb→le _ _ fits))
  | inr full ↦ rw full
]

-- No copy touches what lies behind the end.
pub drop-emits : (m : Message) (cs : List Bytes) → drop m.end (emits m cs).buf ≡ drop m.end m.buf
unfolding emits emit
drop-emits m [] = refl
drop-emits m (c ∷ cs) = drop-emits (emit m c) cs ∙ drop-emit m c
