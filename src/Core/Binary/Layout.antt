-- ===== src/Core/Binary/Layout.antt =====
-- fathom/src/lang/core/binary/read.rs: formats of a fixed size, and their names in the language.
pub mod Fits
pub mod Takes
pub mod Items
pub mod Typed
use ddl.Prelude.{ℕ, suc, ◌*◌, ◌<◌, String}
use ddl.Prelude.Int.{pos}
use ddl.Runtime.Read.{usize_end}
use ddl.Runtime.UInt.{UInt, u8, u16_le, u16_be, u32_le, u32_be, u64_le, u64_be, size}
use ddl.Runtime.Number.{
  SInt, i8, i16_le, i16_be, i32_le, i32_be, i64_le, i64_be, Float, f32_le, f32_be, f64_le, f64_be,
  uint_of, uint_of_float,
}
use ddl.Core.Semantics.Value.{Head, Value, stuck, no_elims, more_elims, function, global_value}
use ddl.Core.Binary.Read.{int_value}

-- A number, or an array of a fixed length.
pub data Layout : Type 0 where
  uint : UInt → Layout
  int : SInt → Layout
  float : Float → Layout
  array : ℕ → Layout → Layout

-- The bytes that a layout takes.
abbrev pub width : Layout → ℕ
width (uint u) = size u
width (int i) = size (uint_of i)
width (float f) = size (uint_of_float f)
width (array n l) = n * width l

abbrev pub nesting : Layout → ℕ
nesting (array n l) = suc (nesting l)
nesting _ = 1

-- The lengths of all arrays fit a `usize`.
abbrev pub HasLengths : Layout → Type 0
HasLengths (array n l) = (n < usize_end) × HasLengths l
HasLengths _ = Unit {0}

abbrev pub uint_name : UInt → String
uint_name u8 = "U8"
uint_name u16_le = "U16Le"
uint_name u16_be = "U16Be"
uint_name u32_le = "U32Le"
uint_name u32_be = "U32Be"
uint_name u64_le = "U64Le"
uint_name u64_be = "U64Be"

abbrev pub int_name : SInt → String
int_name i8 = "S8"
int_name i16_le = "S16Le"
int_name i16_be = "S16Be"
int_name i32_le = "S32Le"
int_name i32_be = "S32Be"
int_name i64_le = "S64Le"
int_name i64_be = "S64Be"

abbrev pub float_name : Float → String
float_name f32_le = "F32Le"
float_name f32_be = "F32Be"
float_name f64_le = "F64Le"
float_name f64_be = "F64Be"

-- The format of the core language that describes the layout.
abbrev pub to_format : Layout → Value
to_format (uint u) = global_value (uint_name u)
to_format (int i) = global_value (int_name i)
to_format (float f) = global_value (float_name f)
to_format (array n l) =
    stuck (Head.global "FormatArray")
      (more_elims (function (int_value (pos n))) (more_elims (function (to_format l)) no_elims))
