-- ===== src/Convert/Scalars.antt =====
-- A scalar of libmixp/convert.c stored and loaded again at the same place.
use libmixp.Base.{
  ℕ, ◌+◌, ◌%◌, ◌^◌, ◌≤◌, ◌<◌, ◌≡◌, ◌↔◌, sym, ◌∙◌, Bytes, length, write_at, Holds, Holds-read_at,
  length-write_at, read_at-write_at, le→leb, arith,
}
use libmixp.Convert.{
  Message, le8, le16, le32, le64, pu8_store, pu16_store, pu32_store, pu64_store, pu8_load,
  pu16_load, pu32_load, pu64_load, word64,
}
use libmixp.Convert.Wide.{reassembled, reassembled_fits, reassembled_only}

stored :
    (m : Message) (bs : Bytes)
    → m.pos + length bs ≤ m.end
    → m.end ≤ length m.buf
    → Holds (write_at m.buf m.pos bs) m.pos bs
stored m bs room backed =
    Holds-read_at _ m.pos bs (omega (arith, length-write_at m.buf m.pos bs))
      (read_at-write_at m.buf m.pos bs (omega arith))

word64_congr :
    {a0 a1 a2 a3 a4 a5 a6 a7 b0 b1 b2 b3 b4 b5 b6 b7 : ℕ}
    → a0 ≡ b0
    → a1 ≡ b1
    → a2 ≡ b2
    → a3 ≡ b3
    → a4 ≡ b4
    → a5 ≡ b5
    → a6 ≡ b6
    → a7 ≡ b7
    → word64 a0 a1 a2 a3 a4 a5 a6 a7 ≡ word64 b0 b1 b2 b3 b4 b5 b6 b7
word64_congr p0 p1 p2 p3 p4 p5 p6 p7 = rw (p0, p1, p2, p3, p4, p5, p6, p7)

module _ (m : Message) (v : ℕ) (backed : m.end ≤ length m.buf) where
  -- Where there is room, an 8-, 16- or 32-bit load gives back what the store of that width wrote: the
  -- value modulo 2 to its width.
  pub pu_load-pu_store :
      m.pos + 4 ≤ m.end
      → ((pu8_load (record (pu8_store m v) { pos = m.pos })).1 ≡ v % 2 ^ 8)
        × ((pu16_load (record (pu16_store m v) { pos = m.pos })).1 ≡ v % 2 ^ 16)
        × ((pu32_load (record (pu32_store m v) { pos = m.pos })).1 ≡ v % 2 ^ 32)
  unfolding pu8_load pu8_store pu16_load pu16_store pu32_load pu32_store
  pu_load-pu_store room =
      let h1 = stored m (le8 v) (omega arith) backed in
      let h2 = stored m (le16 v) (omega arith) backed in
      let h4 = stored m (le32 v) room backed in
      (
        rw (le→leb (m.pos + 1) m.end (omega arith)) (ground arith),
        rw (le→leb (m.pos + 2) m.end (omega arith)) (ground arith),
        rw (le→leb (m.pos + 4) m.end room) (ground arith),
      )

  wide : m.pos + 8 ≤ m.end → (pu64_load (record (pu64_store m v) { pos = m.pos })).1 ≡ reassembled v
  unfolding pu64_load pu64_store
  wide room =
      let h8 = stored m (le64 v) room backed in
      rw (le→leb (m.pos + 8) m.end room) (
        word64_congr (ground arith) (ground arith) (ground arith) (ground arith) (ground arith)
          (ground arith) (ground arith) (ground arith))

  -- Where there is room, the 64-bit load gives back the stored `uint64_t` exactly when it is below
  -- 2^56 and the highest bit of its low half is clear.
  pub pu64_load-pu64_store :
      m.pos + 8 ≤ m.end
      → v < 2 ^ 64
      → ((pu64_load (record (pu64_store m v) { pos = m.pos })).1 ≡ v)
        ↔ ((v < 2 ^ 56) × (v % 2 ^ 32 < 2 ^ 31))
  pu64_load-pu64_store room h =
      (λ e. reassembled_only v h (sym (wide room) ∙ e), λ k. wide room ∙ reassembled_fits v k.0 k.1)
