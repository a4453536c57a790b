-- ===== src/Runtime/UInt.antt =====
-- fathom-runtime/src/lib.rs: the marker types of unsigned integers, with their `read_unchecked`,
-- `write` and `read`. A `uN` is a number below 2 ^ N; shifts and casts wrap as written.
pub mod Bytes
pub mod Words
pub mod Decode
pub mod Encode
pub mod RoundTrip
use ddl.Prelude.{ℕ, ◌*◌, ◌/◌, ◌%◌, ◌^◌, bit_or}
use ddl.Runtime.Read.{Reads, ◌>>=◌, pure, read_unchecked_u8, check_available}
use ddl.Runtime.Write.{FormatWriter, write_u8}

pub data UInt : Type 0 where
  u8 u16_le u16_be u32_le u32_be u64_le u64_be : UInt

-- `x << k` at a width of `w` bits, `x >> k`, and `x as u8`.
abbrev pub shl : ℕ → ℕ → ℕ → ℕ
shl w x k = x * 2 ^ k % 2 ^ w

abbrev pub shr : ℕ → ℕ → ℕ
shr x k = x / 2 ^ k

abbrev pub as_u8 : ℕ → ℕ
as_u8 x = x % 2 ^ 8

-- `SIZE`, in bytes.
abbrev pub size : UInt → ℕ
size u8 = 1
size u16_le = 2
size u16_be = 2
size u32_le = 4
size u32_be = 4
size u64_le = 8
size u64_be = 8

-- One past the largest value of the host type.
abbrev pub host_end : UInt → ℕ
host_end u = 2 ^ (8 * size u)

unfoldable pub read_unchecked_u16_le : Reads ℕ
read_unchecked_u16_le = do
  b0 ← read_unchecked_u8
  b1 ← read_unchecked_u8
  pure (bit_or b0 (shl 16 b1 8))

unfoldable pub write_u16_le : ℕ → FormatWriter → FormatWriter
write_u16_le value w = write_u8 (as_u8 (shr value 8)) (write_u8 (as_u8 value) w)

unfoldable pub read_unchecked_u16_be : Reads ℕ
read_unchecked_u16_be = do
  b0 ← read_unchecked_u8
  b1 ← read_unchecked_u8
  pure (bit_or (shl 16 b0 8) b1)

unfoldable pub write_u16_be : ℕ → FormatWriter → FormatWriter
write_u16_be value w = write_u8 (as_u8 value) (write_u8 (as_u8 (shr value 8)) w)

unfoldable pub read_unchecked_u32_le : Reads ℕ
read_unchecked_u32_le = do
  b0 ← read_unchecked_u8
  b1 ← read_unchecked_u8
  b2 ← read_unchecked_u8
  b3 ← read_unchecked_u8
  pure (bit_or (bit_or (bit_or b0 (shl 32 b1 8)) (shl 32 b2 16)) (shl 32 b3 24))

unfoldable pub write_u32_le : ℕ → FormatWriter → FormatWriter
write_u32_le value w =
    let w1 = write_u8 (as_u8 value) w in
    let w2 = write_u8 (as_u8 (shr value 8)) w1 in
    let w3 = write_u8 (as_u8 (shr value 16)) w2 in write_u8 (as_u8 (shr value 24)) w3

unfoldable pub read_unchecked_u32_be : Reads ℕ
read_unchecked_u32_be = do
  b0 ← read_unchecked_u8
  b1 ← read_unchecked_u8
  b2 ← read_unchecked_u8
  b3 ← read_unchecked_u8
  pure (bit_or (bit_or (bit_or (shl 32 b0 24) (shl 32 b1 16)) (shl 32 b2 8)) b3)

unfoldable pub write_u32_be : ℕ → FormatWriter → FormatWriter
write_u32_be value w =
    let w1 = write_u8 (as_u8 (shr value 24)) w in
    let w2 = write_u8 (as_u8 (shr value 16)) w1 in
    let w3 = write_u8 (as_u8 (shr value 8)) w2 in write_u8 (as_u8 value) w3

unfoldable pub or_u64_le : (b0 b1 b2 b3 b4 b5 b6 b7 : ℕ) → ℕ
or_u64_le b0 b1 b2 b3 b4 b5 b6 b7 =
    let a1 = bit_or b0 (shl 64 b1 8) in
    let a2 = bit_or a1 (shl 64 b2 16) in
    let a3 = bit_or a2 (shl 64 b3 24) in
    let a4 = bit_or a3 (shl 64 b4 32) in
    let a5 = bit_or a4 (shl 64 b5 40) in
    let a6 = bit_or a5 (shl 64 b6 48) in bit_or a6 (shl 64 b7 56)

unfoldable pub read_unchecked_u64_le : Reads ℕ
read_unchecked_u64_le = do
  b0 ← read_unchecked_u8
  b1 ← read_unchecked_u8
  b2 ← read_unchecked_u8
  b3 ← read_unchecked_u8
  b4 ← read_unchecked_u8
  b5 ← read_unchecked_u8
  b6 ← read_unchecked_u8
  b7 ← read_unchecked_u8
  pure (or_u64_le b0 b1 b2 b3 b4 b5 b6 b7)

unfoldable pub write_u64_le : ℕ → FormatWriter → FormatWriter
write_u64_le value w =
    let w1 = write_u8 (as_u8 value) w in
    let w2 = write_u8 (as_u8 (shr value 8)) w1 in
    let w3 = write_u8 (as_u8 (shr value 16)) w2 in
    let w4 = write_u8 (as_u8 (shr value 24)) w3 in
    let w5 = write_u8 (as_u8 (shr value 32)) w4 in
    let w6 = write_u8 (as_u8 (shr value 40)) w5 in
    let w7 = write_u8 (as_u8 (shr value 48)) w6 in write_u8 (as_u8 (shr value 56)) w7

unfoldable pub or_u64_be : (b0 b1 b2 b3 b4 b5 b6 b7 : ℕ) → ℕ
or_u64_be b0 b1 b2 b3 b4 b5 b6 b7 =
    let a1 = bit_or (shl 64 b0 56) (shl 64 b1 48) in
    let a2 = bit_or a1 (shl 64 b2 40) in
    let a3 = bit_or a2 (shl 64 b3 32) in
    let a4 = bit_or a3 (shl 64 b4 24) in
    let a5 = bit_or a4 (shl 64 b5 16) in let a6 = bit_or a5 (shl 64 b6 8) in bit_or a6 b7

unfoldable pub read_unchecked_u64_be : Reads ℕ
read_unchecked_u64_be = do
  b0 ← read_unchecked_u8
  b1 ← read_unchecked_u8
  b2 ← read_unchecked_u8
  b3 ← read_unchecked_u8
  b4 ← read_unchecked_u8
  b5 ← read_unchecked_u8
  b6 ← read_unchecked_u8
  b7 ← read_unchecked_u8
  pure (or_u64_be b0 b1 b2 b3 b4 b5 b6 b7)

unfoldable pub write_u64_be : ℕ → FormatWriter → FormatWriter
write_u64_be value w =
    let w1 = write_u8 (as_u8 (shr value 56)) w in
    let w2 = write_u8 (as_u8 (shr value 48)) w1 in
    let w3 = write_u8 (as_u8 (shr value 40)) w2 in
    let w4 = write_u8 (as_u8 (shr value 32)) w3 in
    let w5 = write_u8 (as_u8 (shr value 24)) w4 in
    let w6 = write_u8 (as_u8 (shr value 16)) w5 in
    let w7 = write_u8 (as_u8 (shr value 8)) w6 in write_u8 (as_u8 value) w7

-- The implementations of the trait for each marker.
unfoldable pub read_unchecked : UInt → Reads ℕ
unfolding read_unchecked_u16_le read_unchecked_u16_be read_unchecked_u32_le read_unchecked_u32_be
    read_unchecked_u64_le read_unchecked_u64_be
read_unchecked u8 = read_unchecked_u8
read_unchecked u16_le = read_unchecked_u16_le
read_unchecked u16_be = read_unchecked_u16_be
read_unchecked u32_le = read_unchecked_u32_le
read_unchecked u32_be = read_unchecked_u32_be
read_unchecked u64_le = read_unchecked_u64_le
read_unchecked u64_be = read_unchecked_u64_be

unfoldable pub write : UInt → ℕ → FormatWriter → FormatWriter
unfolding write_u16_le write_u16_be write_u32_le write_u32_be write_u64_le write_u64_be
write u8 = write_u8
write u16_le = write_u16_le
write u16_be = write_u16_be
write u32_le = write_u32_le
write u32_be = write_u32_be
write u64_le = write_u64_le
write u64_be = write_u64_be

-- `ReadFormat::read`: the bounds are checked once, for all bytes.
unfoldable pub read : UInt → Reads ℕ
read u = do _ ← check_available (size u); read_unchecked u
