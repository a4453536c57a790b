-- ===== src/Runtime/UInt/Decode.antt =====
-- fathom-runtime/src/lib.rs: what `read` returns on every reader over a buffer.
use ddl.Prelude.{
  ℕ, suc, ◌+◌, ◌≤◌, ◌<◌, ◌≡◌, refl, ap, some, List, ◌∷◌, length, get_elem?, drop, take, All, arith,
  if◌then◌else◌, leb, Bool-cases, inl, inr, length-drop, get_elem?-drop, All-drop,
}
use ddl.Outcome.{Outcome, ok, err}
use ddl.Runtime.Read.{
  ReadScope, FormatReader, ReadError, IsByte, IsBuffer, eof, read_eof_error, usize_end,
  read_unchecked_u8, check_available,
}
use ddl.Runtime.UInt.{
  UInt, u8, u16_le, u16_be, u32_le, u32_be, u64_le, u64_be, size, read_unchecked, read,
}
use ddl.Runtime.UInt.Bytes.{decode}
use ddl.Runtime.UInt.Words.{
  or_u16_le, or_u16_be, or_u32_le, or_u32_be, or_u64_le-decode, or_u64_be-decode,
}

abbrev pub at : ReadScope → ℕ → FormatReader
at s o = record { scope = s; offset = o }

-- The bytes that a reader has not passed.
abbrev pub rest : FormatReader → List ℕ
rest r = drop r.offset r.scope.bytes

module _ (s : ReadScope) (o : ℕ) where
  u8_at :
      (i b : ℕ)
      → get_elem? (drop o s.bytes) i ≡ some b
      → o + i + 1 < usize_end
      → read_unchecked_u8 (at s (o + i)) ≡ (ok b, at s (o + suc i))
  unfolding read_unchecked_u8
  u8_at i b e h = ground (arith, get_elem?-drop o s.bytes i)

module _ (s : ReadScope) (o : ℕ) where
  read_unchecked-at :
      (u : UInt) (bs : List ℕ)
      → drop o s.bytes ≡ bs
      → All IsByte bs
      → size u ≤ length bs
      → o + size u < usize_end
      → read_unchecked u (at s (o + 0)) ≡ (ok (decode u (take (size u) bs)), at s (o + size u))
  unfolding read_unchecked decode
  read_unchecked-at u8 (b0 ∷ t) d h n fits =
      rw (u8_at s o 0 b0 (rw d) (omega arith)) (ap (λ (v : ℕ). (ok v, at s (o + 1))) (omega arith))
  read_unchecked-at u16_le (b0 ∷ b1 ∷ t) d h n fits = rw (
    u8_at s o 0 b0 (rw d) (omega arith),
    u8_at s o 1 b1 (rw d) (omega arith),
    or_u16_le b0 b1 (omega arith),
  )
  read_unchecked-at u16_be (b0 ∷ b1 ∷ t) d h n fits = rw (
    u8_at s o 0 b0 (rw d) (omega arith),
    u8_at s o 1 b1 (rw d) (omega arith),
    or_u16_be b0 b1 (omega arith),
  )
  read_unchecked-at u32_le (b0 ∷ b1 ∷ b2 ∷ b3 ∷ t) d h n fits = rw (
    u8_at s o 0 b0 (rw d) (omega arith),
    u8_at s o 1 b1 (rw d) (omega arith),
    u8_at s o 2 b2 (rw d) (omega arith),
    u8_at s o 3 b3 (rw d) (omega arith),
    or_u32_le b0 b1 b2 b3 (omega arith),
  )
  read_unchecked-at u32_be (b0 ∷ b1 ∷ b2 ∷ b3 ∷ t) d h n fits = rw (
    u8_at s o 0 b0 (rw d) (omega arith),
    u8_at s o 1 b1 (rw d) (omega arith),
    u8_at s o 2 b2 (rw d) (omega arith),
    u8_at s o 3 b3 (rw d) (omega arith),
    or_u32_be b0 b1 b2 b3 (omega arith),
  )
  read_unchecked-at u64_le (b0 ∷ b1 ∷ b2 ∷ b3 ∷ b4 ∷ b5 ∷ b6 ∷ b7 ∷ t) d h n fits = rw (
    u8_at s o 0 b0 (rw d) (omega arith),
    u8_at s o 1 b1 (rw d) (omega arith),
    u8_at s o 2 b2 (rw d) (omega arith),
    u8_at s o 3 b3 (rw d) (omega arith),
    u8_at s o 4 b4 (rw d) (omega arith),
    u8_at s o 5 b5 (rw d) (omega arith),
    u8_at s o 6 b6 (rw d) (omega arith),
    u8_at s o 7 b7 (rw d) (omega arith),
    or_u64_le-decode b0 b1 b2 b3 b4 b5 b6 b7 (omega arith),
  )
  read_unchecked-at u64_be (b0 ∷ b1 ∷ b2 ∷ b3 ∷ b4 ∷ b5 ∷ b6 ∷ b7 ∷ t) d h n fits = rw (
    u8_at s o 0 b0 (rw d) (omega arith),
    u8_at s o 1 b1 (rw d) (omega arith),
    u8_at s o 2 b2 (rw d) (omega arith),
    u8_at s o 3 b3 (rw d) (omega arith),
    u8_at s o 4 b4 (rw d) (omega arith),
    u8_at s o 5 b5 (rw d) (omega arith),
    u8_at s o 6 b6 (rw d) (omega arith),
    u8_at s o 7 b7 (rw d) (omega arith),
    or_u64_be-decode b0 b1 b2 b3 b4 b5 b6 b7 (omega arith),
  )
  read_unchecked-at _ _ d h n fits = absurd (omega arith)

read_unchecked-decode :
    (u : UInt) (r : FormatReader)
    → IsBuffer r.scope.bytes
    → r.offset + size u ≤ length r.scope.bytes
    → read_unchecked u r ≡ (ok (decode u (take (size u) (rest r))), at r.scope (r.offset + size u))
read_unchecked-decode u r h n =
    let start : r.offset + 0 ≡ r.offset = omega arith in
    rw start at (
      read_unchecked-at r.scope r.offset u (rest r) refl
        (All-drop IsByte r.offset r.scope.bytes h.all_bytes)
        (omega (arith, length-drop {0} r.offset r.scope.bytes)) (omega (arith, h.in_memory)))

pub size_pos : (u : UInt) → 1 ≤ size u
size_pos u8 = omega arith
size_pos _ = omega arith

-- What a reader over a buffer answers: the bounds are checked first, then all bytes are taken.
abbrev pub read_result : UInt → FormatReader → Outcome ReadError ℕ × FormatReader
read_result u r =
    if leb (r.offset + size u) (length r.scope.bytes)
    then (ok (decode u (take (size u) (rest r))), at r.scope (r.offset + size u))
    else (err (eof read_eof_error), r)

-- On every reader over a buffer, at any offset, `read` of an unsigned format returns the number
-- that the next `size u` bytes stand for and moves past them, if that many bytes are left, and
-- otherwise returns `Eof` and leaves the reader as it is. There is no panic and no undefined
-- behaviour.
pub read-decode :
    (u : UInt) (r : FormatReader) → IsBuffer r.scope.bytes → read u r ≡ read_result u r
unfolding read check_available
read-decode u r h = elim (Bool-cases (leb (r.offset + size u) (length r.scope.bytes))) [
  | inl fits ↦ ground (arith, read_unchecked-decode u r h)
  | inr short ↦ ground arith
]
