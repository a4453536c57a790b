-- ===== src/Runtime/UInt/Words.antt =====
-- fathom-runtime/src/lib.rs: the shifts and ors that join bytes into a word, as sums.
use ddl.Prelude.{ℕ, ◌+◌, ◌*◌, ◌^◌, ◌<◌, bit_or, ◌≡◌, [], ◌∷◌, All, arith}
use ddl.Prelude.Bits.{bit_or-low_high, bit_or-high_low}
use ddl.Runtime.Read.{IsByte}
use ddl.Runtime.UInt.Bytes.{decode_le, decode_be}
use ddl.Runtime.UInt.{shl, or_u64_le, or_u64_be}

module _ (b0 b1 : ℕ) (h : All IsByte (b0 ∷ b1 ∷ [])) where
  pub or_u16_le : bit_or b0 (shl 16 b1 8) ≡ decode_le (b0 ∷ b1 ∷ [])
  or_u16_le = ground (arith, bit_or-low_high 8 b0 b1)

  pub or_u16_be : bit_or (shl 16 b0 8) b1 ≡ decode_be 0 (b0 ∷ b1 ∷ [])
  or_u16_be = ground (arith, bit_or-high_low 8 b0 b1)

-- The next lower field joins a sum of fields that is a multiple of `2 ^ k`.
or_next : (k acc high low : ℕ) → acc ≡ high * 2 ^ k → low < 2 ^ k → bit_or acc low ≡ acc + low
or_next k acc high low e h = rw e (bit_or-high_low k high low h)

-- A shift of a byte that loses no bit.
shl_fits : (w k b : ℕ) → b * 2 ^ k < 2 ^ w → shl w b k ≡ b * 2 ^ k
shl_fits w k b h = grind arith

module _ (b0 b1 b2 b3 : ℕ) (h : All IsByte (b0 ∷ b1 ∷ b2 ∷ b3 ∷ [])) where
  pub or_u32_le :
      bit_or (bit_or (bit_or b0 (shl 32 b1 8)) (shl 32 b2 16)) (shl 32 b3 24)
      ≡ decode_le (b0 ∷ b1 ∷ b2 ∷ b3 ∷ [])
  or_u32_le =
      rw
        (
          shl_fits 32 8 b1 (omega arith),
          shl_fits 32 16 b2 (omega arith),
          shl_fits 32 24 b3 (omega arith),
          bit_or-low_high 8 b0 b1 (omega arith),
          bit_or-low_high 16 (b0 + b1 * 2 ^ 8) b2 (omega arith),
          bit_or-low_high 24 (b0 + b1 * 2 ^ 8 + b2 * 2 ^ 16) b3 (omega arith),
        )
        (omega arith)

  pub or_u32_be :
      bit_or (bit_or (bit_or (shl 32 b0 24) (shl 32 b1 16)) (shl 32 b2 8)) b3
      ≡ decode_be 0 (b0 ∷ b1 ∷ b2 ∷ b3 ∷ [])
  or_u32_be =
      rw
        (
          shl_fits 32 24 b0 (omega arith),
          shl_fits 32 16 b1 (omega arith),
          shl_fits 32 8 b2 (omega arith),
          bit_or-high_low 24 b0 (b1 * 2 ^ 16) (omega arith),
          or_next 16 (b0 * 2 ^ 24 + b1 * 2 ^ 16) (256 * b0 + b1) (b2 * 2 ^ 8) (omega arith)
              (omega arith),
          or_next 8 (b0 * 2 ^ 24 + b1 * 2 ^ 16 + b2 * 2 ^ 8) (256 * (256 * b0 + b1) + b2) b3
              (omega arith) (omega arith),
        )
        (omega arith)

module _ (b0 b1 b2 b3 b4 b5 b6 b7 : ℕ) where
  pub or_u64_le-decode :
      All IsByte (b0 ∷ b1 ∷ b2 ∷ b3 ∷ b4 ∷ b5 ∷ b6 ∷ b7 ∷ [])
      → or_u64_le b0 b1 b2 b3 b4 b5 b6 b7 ≡ decode_le (b0 ∷ b1 ∷ b2 ∷ b3 ∷ b4 ∷ b5 ∷ b6 ∷ b7 ∷ [])
  unfolding or_u64_le
  or_u64_le-decode h =
      let s1 = b0 + b1 * 2 ^ 8 in
      let s2 = s1 + b2 * 2 ^ 16 in
      let s3 = s2 + b3 * 2 ^ 24 in
      let s4 = s3 + b4 * 2 ^ 32 in
      let s5 = s4 + b5 * 2 ^ 40 in
      let s6 = s5 + b6 * 2 ^ 48 in
      rw
        (
          shl_fits 64 8 b1 (omega arith),
          shl_fits 64 16 b2 (omega arith),
          shl_fits 64 24 b3 (omega arith),
          shl_fits 64 32 b4 (omega arith),
          shl_fits 64 40 b5 (omega arith),
          shl_fits 64 48 b6 (omega arith),
          shl_fits 64 56 b7 (omega arith),
          bit_or-low_high 8 b0 b1 (omega arith),
          bit_or-low_high 16 s1 b2 (omega arith),
          bit_or-low_high 24 s2 b3 (omega arith),
          bit_or-low_high 32 s3 b4 (omega arith),
          bit_or-low_high 40 s4 b5 (omega arith),
          bit_or-low_high 48 s5 b6 (omega arith),
          bit_or-low_high 56 s6 b7 (omega arith),
        )
        (omega arith)

  pub or_u64_be-decode :
      All IsByte (b0 ∷ b1 ∷ b2 ∷ b3 ∷ b4 ∷ b5 ∷ b6 ∷ b7 ∷ [])
      → or_u64_be b0 b1 b2 b3 b4 b5 b6 b7 ≡ decode_be 0 (b0 ∷ b1 ∷ b2 ∷ b3 ∷ b4 ∷ b5 ∷ b6 ∷ b7 ∷ [])
  unfolding or_u64_be
  or_u64_be-decode h =
      let s1 = b0 * 2 ^ 56 + b1 * 2 ^ 48 in
      let s2 = s1 + b2 * 2 ^ 40 in
      let s3 = s2 + b3 * 2 ^ 32 in
      let s4 = s3 + b4 * 2 ^ 24 in
      let s5 = s4 + b5 * 2 ^ 16 in
      let s6 = s5 + b6 * 2 ^ 8 in
      let q1 = 256 * b0 + b1 in
      let q2 = 256 * q1 + b2 in
      let q3 = 256 * q2 + b3 in
      let q4 = 256 * q3 + b4 in
      let q5 = 256 * q4 + b5 in
      let q6 = 256 * q5 + b6 in
      rw
        (
          shl_fits 64 56 b0 (omega arith),
          shl_fits 64 48 b1 (omega arith),
          shl_fits 64 40 b2 (omega arith),
          shl_fits 64 32 b3 (omega arith),
          shl_fits 64 24 b4 (omega arith),
          shl_fits 64 16 b5 (omega arith),
          shl_fits 64 8 b6 (omega arith),
          bit_or-high_low 56 b0 (b1 * 2 ^ 48) (omega arith),
          or_next 48 s1 q1 (b2 * 2 ^ 40) (omega arith) (omega arith),
          or_next 40 s2 q2 (b3 * 2 ^ 32) (omega arith) (omega arith),
          or_next 32 s3 q3 (b4 * 2 ^ 24) (omega arith) (omega arith),
          or_next 24 s4 q4 (b5 * 2 ^ 16) (omega arith) (omega arith),
          or_next 16 s5 q5 (b6 * 2 ^ 8) (omega arith) (omega arith),
          or_next 8 s6 q6 b7 (omega arith) (omega arith),
        )
        (omega arith)
