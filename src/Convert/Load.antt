-- ===== src/Convert/Load.antt =====
-- In the mode MsgUnpack the scalars of convert.c give back the value whose bytes stand at `pos`.
use libmixp.Base.{
  ℕ, ◌+◌, ◌%◌, ◌^◌, ◌<◌, ◌≡◌, refl, ap, ◌∙◌, [], Bytes, ◌++◌, length, length-append, Holds,
  Holds-right, le→leb, arith,
}
use libmixp.Convert.{
  Message, msg_unpack, advance, le8, le16, le32, le64, pu8, pu16, pu32, pu64, psize, pu8_load,
  pu16_load, pu32_load, pu64_load,
}
use libmixp.Convert.Wide.{reassembled_fits}

-- The message is read, and the bytes `bs` are what it has from its cursor to its end.
pub record Ready (m : Message) (bs : Bytes) : Type 0 where
  pub unpacking : m.mode ≡ msg_unpack
  pub room : m.pos + length bs ≡ m.end
  pub holds : Holds m.buf m.pos bs

pub Ready-right :
    (m : Message) (xs ys : Bytes) (n : ℕ)
    → n ≡ length xs
    → Ready m (xs ++ ys)
    → Ready (advance m n) ys
Ready-right m xs ys n e r = record {
  unpacking = r.unpacking;
  room = omega (arith, r.room, length-append xs ys);
  holds = Holds-right m.buf m.pos (m.pos + n) xs ys (omega arith) r.holds;
}

-- A message that is read to its end has its cursor there.
pub at_end {ℓ} :
    {A : Type ℓ} (result : Message × A) (m m' : Message) (a : A)
    → result ≡ (m', a)
    → record m' { pos = m.end } ≡ record m { pos = m.end }
    → Ready m' []
    → result ≡ (record m { pos = m.end }, a)
at_end result m m' a e same r =
    let end : m'.end ≡ m.end = ap (λ (x : Message). x.end) same in
    let arrived : m'.pos ≡ m.end = omega (arith, r.room) in
    let moved : m' ≡ record m' { pos = m.end } = ap (λ (p : ℕ). record m' { pos = p }) arrived in
    e ∙ ap (λ (x : Message). (x, a)) (moved ∙ same)

-- A 64-bit value that `mixp_pu64_load` gives back.
abbrev pub IsLoadable : ℕ → Type 0
IsLoadable v = (v < 2 ^ 56) × (v % 2 ^ 32 < 2 ^ 31)

module _ (m : Message) (v x : ℕ) (rest : Bytes) where
  pub pu8-unpack :
      v < 2 ^ 8 → Ready m (le8 v ++ rest) → (pu8 m x ≡ (advance m 1, v)) × Ready (advance m 1) rest
  unfolding pu8 pu8_load
  pu8-unpack h r = (
    rw (r.unpacking, le→leb (m.pos + 1) m.end (omega (arith, r.room))) (ground arith),
    Ready-right m (le8 v) rest 1 refl r,
  )

  pub pu16_load-unpack :
      v < 2 ^ 16
      → Ready m (le16 v ++ rest)
      → (pu16_load m ≡ (advance m 2, v)) × Ready (advance m 2) rest
  unfolding pu16_load
  pu16_load-unpack h r = (
    rw (le→leb (m.pos + 2) m.end (omega (arith, r.room))) (ground arith),
    Ready-right m (le16 v) rest 2 refl r,
  )

  pub pu16-unpack :
      v < 2 ^ 16
      → Ready m (le16 v ++ rest)
      → (pu16 m x ≡ (advance m 2, v)) × Ready (advance m 2) rest
  unfolding pu16 pu16_load
  pu16-unpack h r = (
    rw (r.unpacking, le→leb (m.pos + 2) m.end (omega (arith, r.room))) (ground arith),
    Ready-right m (le16 v) rest 2 refl r,
  )

  pub pu32-unpack :
      v < 2 ^ 32
      → Ready m (le32 v ++ rest)
      → (pu32 m x ≡ (advance m 4, v)) × Ready (advance m 4) rest
  unfolding pu32 pu32_load
  pu32-unpack h r = (
    rw (r.unpacking, le→leb (m.pos + 4) m.end (omega (arith, r.room))) (ground arith),
    Ready-right m (le32 v) rest 4 refl r,
  )

  pub psize-unpack :
      v < 2 ^ 32
      → Ready m (le32 (v % 2 ^ 32) ++ rest)
      → (psize m x ≡ (advance m 4, v)) × Ready (advance m 4) rest
  unfolding psize pu32_load
  psize-unpack h r = (
    rw (r.unpacking, le→leb (m.pos + 4) m.end (omega (arith, r.room))) (ground arith),
    Ready-right m (le32 (v % 2 ^ 32)) rest 4 refl r,
  )

  pub pu64-unpack :
      IsLoadable v
      → Ready m (le64 v ++ rest)
      → (pu64 m x ≡ (advance m 8, v)) × Ready (advance m 8) rest
  unfolding pu64 pu64_load
  pu64-unpack h r = (
    rw (r.unpacking, le→leb (m.pos + 8) m.end (omega (arith, r.room)))
        (ground (arith, reassembled_fits v h.0 h.1)),
    Ready-right m (le64 v) rest 8 refl r,
  )
