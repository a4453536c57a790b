-- ===== src/Runtime/Number/RoundTrip.antt =====
-- fathom-runtime/src/lib.rs: signed integers come back as they were written.
use ddl.Prelude.{ℕ, ◌+◌, ◌-◌, ◌^◌, ◌<◌, ◌≡◌, List, ◌++◌, length, arith}
use ddl.Prelude.Int.{ℤ, pos, negsuc, ◌≤ℤ◌}
use ddl.Outcome.{ok}
use ddl.Runtime.Read.{ReadScope, IsBuffer}
use ddl.Runtime.Write.{FormatWriter}
use ddl.Runtime.UInt.{size, host_end}
use ddl.Runtime.UInt.Decode.{at}
use ddl.Runtime.UInt.RoundTrip.{read-write}
use ddl.Runtime.Number.{SInt, i8, uint_of, bits, as_signed, as_unsigned, read_int, write_int}

-- The range of the signed host type.
abbrev pub IsInt : SInt → ℤ → Type 0
IsInt i z =
    let half = 2 ^ (bits (uint_of i) - 1) in (negsuc (half - 1) ≤ℤ z) × (z ≤ℤ pos (half - 1))

as_signed-as_unsigned :
    (i : SInt) (z : ℤ)
    → IsInt i z
    → as_signed (bits (uint_of i)) (as_unsigned (bits (uint_of i)) z) ≡ z
unfolding as_signed as_unsigned
as_signed-as_unsigned i8 (pos n) h = ground arith
as_signed-as_unsigned i8 (negsuc n) h = ground arith
as_signed-as_unsigned _ (pos n) h = ground arith
as_signed-as_unsigned _ (negsuc n) h = ground arith

as_unsigned-lt :
    (i : SInt) (z : ℤ) → IsInt i z → as_unsigned (bits (uint_of i)) z < host_end (uint_of i)
unfolding as_unsigned
as_unsigned-lt i8 (pos n) h = omega arith
as_unsigned-lt i8 (negsuc n) h = omega arith
as_unsigned-lt _ (pos n) h = omega arith
as_unsigned-lt _ (negsuc n) h = omega arith

-- A signed integer in the range of its host type is read back where it was written, with anything
-- before and behind it in the buffer, and the reader stops behind it.
pub read_int-write_int :
    (i : SInt) (z : ℤ) (w : FormatWriter) (s : ReadScope) (more : List ℕ)
    → IsInt i z
    → s.bytes ≡ (write_int i z w).buffer ++ more
    → IsBuffer s.bytes
    → read_int i (at s (length w.buffer)) ≡ (ok z, at s (length w.buffer + size (uint_of i)))
unfolding read_int write_int
read_int-write_int i z w s more h e b = rw (
  read-write (uint_of i) (as_unsigned (bits (uint_of i)) z) w s more (as_unsigned-lt i z h) e b,
  as_signed-as_unsigned i z h,
)
