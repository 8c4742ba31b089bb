-- ===== src/Convert/Wide.antt =====
-- Which 64-bit values `mixp_pu64_load` gives back.
use libmixp.Base.{ℕ, ◌/◌, ◌%◌, ◌^◌, ◌<◌, ◌≡◌, arith}
use libmixp.Convert.{word64}

-- The bytes of `v`, as `mixp_pu64_load` combines them.
abbrev pub reassembled : ℕ → ℕ
reassembled v =
    word64 (v % 256) (v / 2 ^ 8 % 256) (v / 2 ^ 16 % 256) (v / 2 ^ 24 % 256) (v / 2 ^ 32 % 256)
      (v / 2 ^ 40 % 256) (v / 2 ^ 48 % 256) (v / 2 ^ 56 % 256)

pub reassembled_fits : (v : ℕ) → v < 2 ^ 56 → v % 2 ^ 32 < 2 ^ 31 → reassembled v ≡ v
reassembled_fits v h k = ground arith

pub reassembled_only :
    (v : ℕ) → v < 2 ^ 64 → reassembled v ≡ v → (v < 2 ^ 56) × (v % 2 ^ 32 < 2 ^ 31)
reassembled_only v h k = ground arith
