-- ===== src/Convert.antt =====
-- libmixp/convert.c, the scalars, over the message of include/9p-mixp/msgs.h. A pointer into the
-- block `data` is its offset from it; the block's contents are `buf`. A store past `end` writes
-- nothing and a load past `end` gives 0; both move `pos` all the same.
pub mod Wide
pub mod Emit
pub mod Load
pub mod Scalars
use libmixp.Base.{
  ℕ, ◌+◌, ◌*◌, ◌/◌, ◌%◌, ◌^◌, ◌-◌, Bool, List, [], ◌∷◌, Bytes, write_at, get_or, ltb, leb,
  if◌then◌else◌,
}

pub data Mode : Type 0 where
  msg_pack msg_unpack : Mode

pub record Message : Type 0 where
  pub buf : Bytes
  pub pos : ℕ
  pub end : ℕ
  pub size : ℕ
  pub mode : Mode

-- `msg->pos += n`
abbrev pub advance : Message → ℕ → Message
advance m n = record m { pos = m.pos + n }

-- `msg->pos + n <= msg->end`
abbrev pub has_room : Message → ℕ → Bool
has_room m n = leb (m.pos + n) m.end

abbrev pub byte_at : Message → ℕ → ℕ
byte_at m i = get_or m.buf (m.pos + i) 0

-- The bytes of an unsigned value, the lowest first.
abbrev pub le8 : ℕ → Bytes
le8 v = (v % 256) ∷ []

abbrev pub le16 : ℕ → Bytes
le16 v = (v % 256) ∷ (v / 2 ^ 8 % 256) ∷ []

abbrev pub le32 : ℕ → Bytes
le32 v = (v % 256) ∷ (v / 2 ^ 8 % 256) ∷ (v / 2 ^ 16 % 256) ∷ (v / 2 ^ 24 % 256) ∷ []

abbrev pub le64 : ℕ → Bytes
le64 v =
    (v % 256)
    ∷ (v / 2 ^ 8 % 256)
    ∷ (v / 2 ^ 16 % 256)
    ∷ (v / 2 ^ 24 % 256)
    ∷ (v / 2 ^ 32 % 256)
    ∷ (v / 2 ^ 40 % 256)
    ∷ (v / 2 ^ 48 % 256)
    ∷ (v / 2 ^ 56 % 256)
    ∷ []

unfoldable pub pu8_store : Message → ℕ → Message
pu8_store m val =
    let stored = if has_room m 1 then write_at m.buf m.pos (le8 val) else m.buf in
    record m { buf = stored; pos = m.pos + 1 }

unfoldable pub pu32_store : Message → ℕ → Message
pu32_store m val =
    let stored = if has_room m 4 then write_at m.buf m.pos (le32 val) else m.buf in
    record m { buf = stored; pos = m.pos + 4 }

unfoldable pub pu64_store : Message → ℕ → Message
pu64_store m val =
    let stored = if has_room m 8 then write_at m.buf m.pos (le64 val) else m.buf in
    record m { buf = stored; pos = m.pos + 8 }

unfoldable pub pu16_store : Message → ℕ → Message
pu16_store m val =
    let stored = if has_room m 2 then write_at m.buf m.pos (le16 val) else m.buf in
    record m { buf = stored; pos = m.pos + 2 }

-- The operands of `|=` have no bit in common, so it is a sum.
unfoldable pub pu8_load : Message → Message × ℕ
pu8_load m = (advance m 1, if has_room m 1 then byte_at m 0 else 0)

abbrev pub word32 : ℕ → ℕ → ℕ → ℕ → ℕ
word32 b0 b1 b2 b3 = b3 * 2 ^ 24 + b2 * 2 ^ 16 + b1 * 2 ^ 8 + b0

unfoldable pub pu32_load : Message → Message × ℕ
pu32_load m = (
  advance m 4,
  if has_room m 4 then word32 (byte_at m 0) (byte_at m 1) (byte_at m 2) (byte_at m 3) else 0,
)

-- An `int` added to a `uint64_t` is sign-extended first.
abbrev pub sign_extend : ℕ → ℕ
sign_extend w = if ltb w (2 ^ 31) then w else w + (2 ^ 64 - 2 ^ 32)

-- The four low bytes are summed as an `int`; the last byte is shifted by 52, as in the source.
abbrev pub word64 : ℕ → ℕ → ℕ → ℕ → ℕ → ℕ → ℕ → ℕ → ℕ
word64 b0 b1 b2 b3 b4 b5 b6 b7 =
    (sign_extend (word32 b0 b1 b2 b3) + b4 * 2 ^ 32 + b5 * 2 ^ 40 + b6 * 2 ^ 48 + b7 * 2 ^ 52)
    % 2 ^ 64

unfoldable pub pu64_load : Message → Message × ℕ
pu64_load m = (
  advance m 8,
  if has_room m 8
      then word64 (byte_at m 0) (byte_at m 1) (byte_at m 2) (byte_at m 3) (byte_at m 4)
          (byte_at m 5) (byte_at m 6) (byte_at m 7)
      else 0,
)

unfoldable pub pu16_load : Message → Message × ℕ
pu16_load m = (advance m 2, if has_room m 2 then byte_at m 1 * 2 ^ 8 + byte_at m 0 else 0)

-- In the mode MsgPack a value is written and kept, otherwise it is read.
unfoldable pub pu32 : Message → ℕ → Message × ℕ
pu32 m val = elim m.mode [ msg_pack ↦ (pu32_store m val, val) | msg_unpack ↦ pu32_load m ]

-- `size_t`, sent as the `uint32_t` that it is cast to
unfoldable pub psize : Message → ℕ → Message × ℕ
psize m val = elim m.mode [
  | msg_pack ↦ (pu32_store m (val % 2 ^ 32), val)
  | msg_unpack ↦ pu32_load m
]

unfoldable pub pu8 : Message → ℕ → Message × ℕ
pu8 m val = elim m.mode [ msg_pack ↦ (pu8_store m val, val) | msg_unpack ↦ pu8_load m ]

unfoldable pub pu16 : Message → ℕ → Message × ℕ
pu16 m val = elim m.mode [ msg_pack ↦ (pu16_store m val, val) | msg_unpack ↦ pu16_load m ]

unfoldable pub pu64 : Message → ℕ → Message × ℕ
pu64 m val = elim m.mode [ msg_pack ↦ (pu64_store m val, val) | msg_unpack ↦ pu64_load m ]
