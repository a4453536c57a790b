-- ===== src/Core/Binary/Layout/Takes.antt =====
-- fathom/src/lang/core/binary/read.rs: exactly when a format of a fixed size is read.
use mathlib.Core.Path.{subst}
use ddl.Prelude.{
  ℕ, zero, suc, ◌+◌, ◌*◌, ◌≤◌, ◌<◌, ◌≡◌, refl, sym, ap, ◌⊎◌, inl, inr, some, length, arith, take,
}
use ddl.Prelude.Int.{pos}
use ddl.Outcome.{Outcome, ok, err}
use ddl.Runtime.Read.{FormatReader, ReadError, Reads, IsBuffer, usize_end, eof, read_eof_error}
use ddl.Runtime.Read as Read
use ddl.Runtime.UInt.{UInt, u8, size, read}
use ddl.Runtime.UInt.Decode.{at, rest, read-decode}
use ddl.Runtime.UInt.Bytes.{decode}
use ddl.Runtime.Number.{
  SInt, i8, Float, f32_le, f32_be, f64_le, f64_be, uint_of, uint_of_float, bits, as_signed,
  from_bits, read_int, read_float, FloatBits,
}
use ddl.Core.Semantics.Value.{Value, no_values, more_values}
use ddl.Core.Binary.Session.{Context, Session, Parses, ◌>>=◌, pure, on_reader}
use ddl.Core.Binary.Read.{
  int_value, f32_value, f64_value, read_uint_value, read_int_value, read_elems, read_array,
  read_array_of, read_global, read_name, read_value, read_format, to_usize,
}
use ddl.Core.Binary.Layout.{
  Layout, uint, int, float, array, width, nesting, HasLengths, to_format, uint_name, int_name,
  float_name,
}
use ddl.Core.Binary.Layout.Fits.{Fits, IsShort, Takes, le-or-gt, Takes-pure, Takes-bind, Takes-map}

read-fits :
    (u : UInt) (r : FormatReader)
    → IsBuffer r.scope.bytes
    → r.offset + size u ≤ length r.scope.bytes
    → read u r ≡ (ok (decode u (take (size u) (rest r))), at r.scope (r.offset + size u))
read-fits u r b h = ground (arith, read-decode u r b)

read-short :
    (u : UInt) (r : FormatReader)
    → IsBuffer r.scope.bytes
    → length r.scope.bytes < r.offset + size u
    → read u r ≡ (err (eof read_eof_error), r)
read-short u r b h = ground (arith, read-decode u r b)

abbrev on_session {ℓ} :
    {A : Type ℓ} → Session → Outcome ReadError A × FormatReader → Outcome ReadError A × Session
on_session s p = (p.0, record s { reader = p.1 })

-- The number that is read is put into another type.
abbrev mapped {ℓ} :
    {A : Type ℓ} → (ℕ → A) → Outcome ReadError ℕ × FormatReader → Outcome ReadError A × FormatReader
mapped g p = Read.after p (λ n. Read.pure (g n))

module _ {A : Type 0} (g : ℕ → A) (u : UInt) where
  Takes-mapped : Takes (λ s. on_session s (mapped g (read u s.reader))) (size u)
  Takes-mapped s b i = elim (le-or-gt (s.reader.offset + size u) (length s.reader.scope.bytes)) [
    | inl fits ↦ inl (
      fits,
      (
        g (decode u (take (size u) (rest s.reader))),
        ap (λ (p : Outcome ReadError ℕ × FormatReader). on_session s (mapped g p))
            (read-fits u s.reader b fits),
      ),
    )
    | inr short ↦ inr (
      short,
      (
        record s { reader = s.reader },
        ap (λ (p : Outcome ReadError ℕ × FormatReader). on_session s (mapped g p))
            (read-short u s.reader b short),
      ),
    )
  ]

Takes-read : (u : UInt) → Takes (on_reader (read u)) (size u)
Takes-read u s b i = elim (le-or-gt (s.reader.offset + size u) (length s.reader.scope.bytes)) [
  | inl fits ↦ inl (
    fits,
    (decode u (take (size u) (rest s.reader)), ap (on_session s) (read-fits u s.reader b fits)),
  )
  | inr short ↦
      inr
        (short, (record s { reader = s.reader }, ap (on_session s) (read-short u s.reader b short)))
]

Takes-uint : (u : UInt) → Takes (read_uint_value u) (size u)
Takes-uint u = Takes-map (on_reader (read u)) (λ n. int_value (pos n)) (size u) (Takes-read u)

Takes-int : (i : SInt) → Takes (read_int_value i) (size (uint_of i))
unfolding read_int
Takes-int i =
    Takes-map (on_reader (read_int i)) int_value (size (uint_of i))
      (Takes-mapped (as_signed (bits (uint_of i))) (uint_of i))

Takes-float :
    (f : Float) (wrap : FloatBits → Value)
    → Takes (on_reader (read_float f) >>= λ x. pure (wrap x)) (size (uint_of_float f))
unfolding read_float
Takes-float f wrap =
    Takes-map (on_reader (read_float f)) wrap (size (uint_of_float f))
      (Takes-mapped from_bits (uint_of_float f))

Takes-elems :
    (read_elem : Parses Value) (w n : ℕ)
    → Takes read_elem w
    → Takes (read_elems read_elem n) (n * w)
unfolding read_elems
Takes-elems read_elem w zero k =
    subst (Takes (read_elems read_elem zero)) (ground arith) (Takes-pure no_values)
Takes-elems read_elem w (suc n) k = subst (Takes (read_elems read_elem (suc n))) (ground arith) (
    Takes-bind read_elem _ w (n * w) k λ value.
      Takes-map (read_elems read_elem n) (more_values value) (n * w) (Takes-elems read_elem w n k))

-- The names of formats, each with its arm.
read_name-uint : (u : UInt) → read_name (uint_name u) ≡ read_uint_value u
unfolding read_name
read_name-uint u8 = refl
read_name-uint _ = refl

read_name-int : (i : SInt) → read_name (int_name i) ≡ read_int_value i
unfolding read_name
read_name-int i8 = refl
read_name-int _ = refl

Takes-float_name : (f : Float) → Takes (read_name (float_name f)) (size (uint_of_float f))
unfolding read_name
Takes-float_name f32_le = Takes-float f32_le f32_value
Takes-float_name f32_be = Takes-float f32_be f32_value
Takes-float_name f64_le = Takes-float f64_le f64_value
Takes-float_name f64_be = Takes-float f64_be f64_value

Takes-array :
    (read_elem : Parses Value) (w n : ℕ)
    → n < usize_end
    → Takes read_elem w
    → Takes (read_array read_elem (int_value (pos n))) (n * w)
unfolding read_array
Takes-array read_elem w n h k =
    let fits : to_usize (pos n) ≡ some n = ground arith in
    subst (λ o. Takes (read_array_of read_elem o) (n * w)) (sym fits)
      (Takes-map (read_elems read_elem n) Value.array_term (n * w) (Takes-elems read_elem w n k))

Takes-read_format :
    (l : Layout) (fuel : ℕ) (ctx : Context)
    → HasLengths l
    → nesting l ≤ fuel
    → Takes (read_format fuel ctx (to_format l)) (width l)
unfolding read_format read_value read_global
Takes-read_format (array n l) (suc fuel) ctx h d =
    Takes-array (read_format fuel ctx (to_format l)) (width l) n h.0
      (Takes-read_format l fuel ctx h.1 (omega arith))
Takes-read_format (uint u) (suc fuel) ctx h d =
    subst (λ m. Takes m (size u)) (sym (read_name-uint u)) (Takes-uint u)
Takes-read_format (int i) (suc fuel) ctx h d =
    subst (λ m. Takes m (size (uint_of i))) (sym (read_name-int i)) (Takes-int i)
Takes-read_format (float f) (suc fuel) ctx h d = Takes-float_name f
Takes-read_format (array n l) zero ctx h d = absurd (omega arith)
Takes-read_format _ zero ctx h d = absurd (omega arith)

-- A format of a fixed size, whose array lengths fit a `usize`, with as much fuel as it is nested, over
-- a buffer and a reader that is not past its end: if as many bytes are left as its size, the read gives
-- a value, moves past just these bytes and queues no link; and if fewer are left, it answers `Eof`.
pub read_format-width :
    (fuel : ℕ) (ctx : Context) (l : Layout) (s : Session)
    → HasLengths l
    → nesting l ≤ fuel
    → IsBuffer s.reader.scope.bytes
    → s.reader.offset ≤ length s.reader.scope.bytes
    → Fits (read_format fuel ctx (to_format l)) (width l) s
      ⊎ IsShort (read_format fuel ctx (to_format l)) (width l) s
read_format-width fuel ctx l s h d b i = Takes-read_format l fuel ctx h d s b i
