-- ===== src/Runtime/Number/Bounds.antt =====
-- fathom-runtime/src/lib.rs: the numbers that are read fit their types.
use ddl.Prelude.{
  ℕ, ◌+◌, ◌-◌, ◌^◌, ◌<◌, ◌≤◌, List, [], ◌∷◌, All, Bool-cases, inl, inr, ◌≡◌, ◌⊎◌, refl, length,
  length-take, length-drop, All-take, All-drop, take, leb, ltb, arith,
}
use ddl.Prelude.Int.{ℤ, pos, negsuc}
use ddl.Outcome.{ok, err}
use ddl.Runtime.Read.{FormatReader, IsByte, IsBuffer, eof, read_eof_error}
use ddl.Runtime.UInt.{UInt, u8, u16_le, u16_be, u32_le, u32_be, u64_le, u64_be, size}
use ddl.Runtime.UInt.Bytes.{decode}
use ddl.Runtime.UInt.Decode.{read-decode, rest, at}
use ddl.Runtime.Number.{SInt, uint_of, bits, as_signed, read_int}

decode-bound :
    (u : UInt) (bs : List ℕ) → All IsByte bs → length bs ≡ size u → decode u bs < 2 ^ bits u
unfolding decode
decode-bound u8 (b0 ∷ []) h n = omega (arith, h)
decode-bound u16_le (b0 ∷ b1 ∷ []) h n = omega (arith, h)
decode-bound u16_be (b0 ∷ b1 ∷ []) h n = omega (arith, h)
decode-bound u32_le (b0 ∷ b1 ∷ b2 ∷ b3 ∷ []) h n = omega (arith, h)
decode-bound u32_be (b0 ∷ b1 ∷ b2 ∷ b3 ∷ []) h n = omega (arith, h)
decode-bound u64_le (b0 ∷ b1 ∷ b2 ∷ b3 ∷ b4 ∷ b5 ∷ b6 ∷ b7 ∷ []) h n = omega (arith, h)
decode-bound u64_be (b0 ∷ b1 ∷ b2 ∷ b3 ∷ b4 ∷ b5 ∷ b6 ∷ b7 ∷ []) h n = omega (arith, h)
decode-bound _ _ h n = absurd (omega arith)

-- The range of the signed integers of `w` bits.
abbrev pub IsInRange : ℕ → ℤ → Type 0
IsInRange w (pos n) = n < 2 ^ (w - 1)
IsInRange w (negsuc n) = n < 2 ^ (w - 1)

as_signed-IsInRange :
    (u : UInt) (x : ℕ) → x < 2 ^ bits u → IsInRange (bits u) (as_signed (bits u) x)
unfolding as_signed
as_signed-IsInRange u x h = elim (Bool-cases (ltb x (2 ^ (bits u - 1)))) [
  | inl low ↦ rw low (ground arith)
  | inr high ↦ rw high (ground arith)
]

-- An integer in the range of the type from bytes that are there, or `Eof` where fewer are left.
abbrev pub IntRead : FormatReader → SInt → Type 0
IntRead r i =
    ((z : ℤ) × (read_int i r ≡ (ok z, at r.scope (r.offset + size (uint_of i))))
      × IsInRange (bits (uint_of i)) z
      × (r.offset + size (uint_of i) ≤ length r.scope.bytes))
    ⊎ ((read_int i r ≡ (err (eof read_eof_error), r))
        × (length r.scope.bytes < r.offset + size (uint_of i)))

module _ (r : FormatReader) (h : IsBuffer r.scope.bytes) where
  read-bound :
      (u : UInt)
      → r.offset + size u ≤ length r.scope.bytes
      → decode u (take (size u) (rest r)) < 2 ^ bits u
  read-bound u fits =
      decode-bound u (take (size u) (rest r))
        (All-take IsByte (size u) (rest r) (All-drop IsByte r.offset r.scope.bytes h.all_bytes))
        (length-take (size u) (rest r)
          (omega (arith, length-drop {0} r.offset r.scope.bytes, fits)))

  -- A read of a signed integer from a reader over a buffer either returns an integer in the range of
  -- the type, and moves the reader past its bytes and not past the end of the buffer; or answers
  -- `Eof` and leaves the reader as it is, where fewer bytes are left. It does nothing else.
  pub read_int-IntRead : (i : SInt) → IntRead r i
  unfolding read_int
  read_int-IntRead i =
      let u = uint_of i in
      elim (Bool-cases (leb (r.offset + size u) (length r.scope.bytes))) [
        | inl fits ↦
            let within : r.offset + size u ≤ length r.scope.bytes = ground arith in
            inl (
              _,
              rw (read-decode u r h, fits) refl,
              as_signed-IsInRange u _ (read-bound u within),
              within,
            )
        | inr short ↦ inr (rw (read-decode u r h, short) refl, ground arith)
      ]
