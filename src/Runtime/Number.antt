-- ===== src/Runtime/Number.antt =====
-- fathom-runtime/src/lib.rs: the markers of signed integers and of floats, which read and write
-- through an unsigned format. A float is its IEEE-754 bit pattern, which `from_bits` and `to_bits`
-- keep.
pub mod RoundTrip
pub mod Bounds
use ddl.Prelude.{ℕ, ◌+◌, ◌-◌, ◌*◌, ◌%◌, ◌^◌, ltb, if◌then◌else◌}
use ddl.Prelude.Int.{ℤ, pos, negsuc}
use ddl.Runtime.Read.{Reads, ◌>>=◌, pure}
use ddl.Runtime.Write.{FormatWriter}
use ddl.Runtime.UInt.{
  UInt, u8, u16_le, u16_be, u32_le, u32_be, u64_le, u64_be, size, read_unchecked, read, write,
}

pub data SInt : Type 0 where
  i8 i16_le i16_be i32_le i32_be i64_le i64_be : SInt

-- The unsigned marker of each use of `impl_int_marker!`.
abbrev pub uint_of : SInt → UInt
uint_of i8 = u8
uint_of i16_le = u16_le
uint_of i16_be = u16_be
uint_of i32_le = u32_le
uint_of i32_be = u32_be
uint_of i64_le = u64_le
uint_of i64_be = u64_be

abbrev pub bits : UInt → ℕ
bits u = 8 * size u

-- `x as $int`: the two's complement reading of `w` bits.
unfoldable pub as_signed : ℕ → ℕ → ℤ
as_signed w x = if ltb x (2 ^ (w - 1)) then pos x else negsuc (2 ^ w - 1 - x)

-- `transmute` from the signed type of `w` bits to the unsigned one.
unfoldable pub as_unsigned : ℕ → ℤ → ℕ
as_unsigned w (pos n) = n % 2 ^ w
as_unsigned w (negsuc n) = 2 ^ w - 1 - n % 2 ^ w

unfoldable pub read_unchecked_int : SInt → Reads ℤ
read_unchecked_int i = do
  value ← read_unchecked (uint_of i)
  pure (as_signed (bits (uint_of i)) value)

unfoldable pub read_int : SInt → Reads ℤ
read_int i = do value ← read (uint_of i); pure (as_signed (bits (uint_of i)) value)

unfoldable pub write_int : SInt → ℤ → FormatWriter → FormatWriter
write_int i value = write (uint_of i) (as_unsigned (bits (uint_of i)) value)

pub data Float : Type 0 where
  f32_le f32_be f64_le f64_be : Float

-- The unsigned marker of each use of `impl_float_marker!`.
abbrev pub uint_of_float : Float → UInt
uint_of_float f32_le = u32_le
uint_of_float f32_be = u32_be
uint_of_float f64_le = u64_le
uint_of_float f64_be = u64_be

-- An `f32` or an `f64`.
pub record FloatBits : Type 0 where
  pub to_bits : ℕ

abbrev pub from_bits : ℕ → FloatBits
from_bits n = record { to_bits = n }

unfoldable pub read_unchecked_float : Float → Reads FloatBits
read_unchecked_float f = do value ← read_unchecked (uint_of_float f); pure (from_bits value)

unfoldable pub read_float : Float → Reads FloatBits
read_float f = do value ← read (uint_of_float f); pure (from_bits value)

unfoldable pub write_float : Float → FloatBits → FormatWriter → FormatWriter
write_float f value = write (uint_of_float f) value.to_bits
