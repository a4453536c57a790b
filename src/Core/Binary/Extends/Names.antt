-- ===== src/Core/Binary/Extends/Names.antt =====
-- fathom/src/lang/core/binary/read.rs: the arms of `read_format` for a stuck global extend the session.
use mathlib.Core.List.{append-nil}
use text.Mathlib.Text.{◌==◌ as str_eq}
use ddl.Prelude.{
  ℕ, zero, suc, ◌≤◌, ◌<◌, ◌≡◌, refl, sym, String, Option, none, some, [], ◌∷◌, length, arith,
}
use ddl.Prelude.Int.{ℤ, pos, negsuc, ◌+ℤ◌}
use ddl.Outcome.{Outcome, ok, err, panic, timeout}
use ddl.Runtime.Read.{
  FormatReader, Reads, ReadError, after, IsBuffer, pure as pure_reader, usize_end, current_pos,
}
use ddl.Runtime.UInt.{UInt, u8, u16_le, u16_be, u32_le, u32_be, u64_le, u64_be, read}
use ddl.Runtime.UInt.Decode.{read-decode}
use ddl.Runtime.Number.{
  SInt, Float, uint_of, uint_of_float, bits, as_signed, from_bits, i8, i16_le, i16_be, i32_le,
  i32_be, i64_le, i64_be, f32_le, f32_be, f64_le, f64_be, read_int, read_float,
}
use ddl.Core.Term.{Primitive}
use ddl.Core.Semantics.Value.{Value, Values}
use ddl.Core.Binary.Session.{Parses, invalid, on_reader}
use ddl.Core.Binary.Read.{
  int_value, f32_value, f64_value, read_uint_value, read_int_value, read_f32_value, read_f64_value,
  read_current_pos, read_name, to_usize, read_elems, read_array, read_link, link_at,
  pos_or_overflow, read_array_of,
}
use ddl.Core.Binary.Extends.{Keeps, Extends-refl, Keeps-bind, Keeps-map, Keeps-if}

-- A method of the reader that stays in the scope and does not go back or out of the data.
record IsStep (r r' : FormatReader) : Type 0 where
  stays : r'.scope ≡ r.scope
  grows : r.offset ≤ r'.offset
  bounded : r.offset ≤ length r.scope.bytes → r'.offset ≤ length r.scope.bytes

Keeps-on_reader :
    {A : Type 0} (m : Reads A)
    → ((r : FormatReader) → IsBuffer r.scope.bytes → IsStep r (m r).1)
    → Keeps (on_reader m)
Keeps-on_reader m h s b =
    let step = h s.reader b in
    record {
      same_scope = step.stays;
      forward = step.grows;
      inside = step.bounded;
      queued = ([], sym (append-nil s.pending_links), tt);
    }

read-IsStep : (u : UInt) (r : FormatReader) → IsBuffer r.scope.bytes → IsStep r (read u r).1
read-IsStep u r b = record {
  stays = ground (arith, read-decode u r b);
  grows = ground (arith, read-decode u r b);
  bounded = λ h. ground (arith, read-decode u r b);
}

-- What follows a read and leaves the reader alone.
after-reader :
    {A B : Type 0} (p : Outcome ReadError A × FormatReader) (f : A → B)
    → (after p (λ a. pure_reader (f a))).1 ≡ p.1
after-reader (ok a, r) f = refl
after-reader (err e, r) f = refl
after-reader (panic x, r) f = refl
after-reader (timeout, r) f = refl

read_int-IsStep : (i : SInt) (r : FormatReader) → IsBuffer r.scope.bytes → IsStep r (read_int i r).1
unfolding read_int
read_int-IsStep i r b =
    rw (after-reader (read (uint_of i) r) (as_signed (bits (uint_of i))))
      (read-IsStep (uint_of i) r b)

read_float-IsStep :
    (f : Float) (r : FormatReader) → IsBuffer r.scope.bytes → IsStep r (read_float f r).1
unfolding read_float
read_float-IsStep f r b =
    rw (after-reader (read (uint_of_float f) r) from_bits) (read-IsStep (uint_of_float f) r b)

Keeps-uint : (u : UInt) → Keeps (read_uint_value u)
Keeps-uint u =
    Keeps-map (on_reader (read u)) (λ n. int_value (pos n))
      (Keeps-on_reader (read u) (read-IsStep u))

Keeps-int : (i : SInt) → Keeps (read_int_value i)
Keeps-int i =
    Keeps-map (on_reader (read_int i)) int_value (Keeps-on_reader (read_int i) (read_int-IsStep i))

Keeps-f32 : (f : Float) → Keeps (read_f32_value f)
Keeps-f32 f =
    Keeps-map (on_reader (read_float f)) f32_value
      (Keeps-on_reader (read_float f) (read_float-IsStep f))

Keeps-f64 : (f : Float) → Keeps (read_f64_value f)
Keeps-f64 f =
    Keeps-map (on_reader (read_float f)) f64_value
      (Keeps-on_reader (read_float f) (read_float-IsStep f))

pub Keeps-invalid : Keeps invalid
Keeps-invalid s b = Extends-refl s

Keeps-pos_or_overflow : (o : Option ℕ) → Keeps (pos_or_overflow o)
Keeps-pos_or_overflow none s b = Extends-refl s
Keeps-pos_or_overflow (some n) s b = Extends-refl s

Keeps-current_pos : Keeps read_current_pos
unfolding read_current_pos
Keeps-current_pos s b = Keeps-pos_or_overflow (current_pos s.reader) s b

pub Keeps-read_name : (name : String) → Keeps (read_name name)
unfolding read_name
Keeps-read_name name = Keeps-if (str_eq name "U8") _ _ (Keeps-uint u8) (
    Keeps-if (str_eq name "U16Le") _ _ (Keeps-uint u16_le) (
      Keeps-if (str_eq name "U16Be") _ _ (Keeps-uint u16_be) (
        Keeps-if (str_eq name "U32Le") _ _ (Keeps-uint u32_le) (
          Keeps-if (str_eq name "U32Be") _ _ (Keeps-uint u32_be) (
            Keeps-if (str_eq name "U64Le") _ _ (Keeps-uint u64_le) (
              Keeps-if (str_eq name "U64Be") _ _ (Keeps-uint u64_be) (
                Keeps-if (str_eq name "S8") _ _ (Keeps-int i8) (
                  Keeps-if (str_eq name "S16Le") _ _ (Keeps-int i16_le) (
                    Keeps-if (str_eq name "S16Be") _ _ (Keeps-int i16_be) (
                      Keeps-if (str_eq name "S32Le") _ _ (Keeps-int i32_le) (
                        Keeps-if (str_eq name "S32Be") _ _ (Keeps-int i32_be) (
                          Keeps-if (str_eq name "S64Le") _ _ (Keeps-int i64_le) (
                            Keeps-if (str_eq name "S64Be") _ _ (Keeps-int i64_be) (
                              Keeps-if (str_eq name "F32Le") _ _ (Keeps-f32 f32_le) (
                                Keeps-if (str_eq name "F32Be") _ _ (Keeps-f32 f32_be) (
                                  Keeps-if (str_eq name "F64Le") _ _ (Keeps-f64 f64_le) (
                                    Keeps-if (str_eq name "F64Be") _ _ (Keeps-f64 f64_be) (
                                      Keeps-if (str_eq name "CurrentPos") _ _ Keeps-current_pos
                                        Keeps-invalid))))))))))))))))))

Keeps-read_elems : (m : Parses Value) (n : ℕ) → Keeps m → Keeps (read_elems m n)
unfolding read_elems
Keeps-read_elems m zero k = λ s b. Extends-refl s
Keeps-read_elems m (suc n) k =
    Keeps-bind m _ k λ v. Keeps-map (read_elems m n) (Values.more_values v) (Keeps-read_elems m n k)

Keeps-read_array_of : (m : Parses Value) (o : Option ℕ) → Keeps m → Keeps (read_array_of m o)
Keeps-read_array_of m none k = Keeps-invalid
Keeps-read_array_of m (some n) k =
    Keeps-map (read_elems m n) Value.array_term (Keeps-read_elems m n k)

pub Keeps-read_array : (m : Parses Value) (v : Value) → Keeps m → Keeps (read_array m v)
unfolding read_array
Keeps-read_array m (Value.primitive (Primitive.int z)) k = Keeps-read_array_of m (to_usize z) k
Keeps-read_array m _ k = Keeps-invalid

-- The position of a link is one that `to_usize` has accepted.
Keeps-link_at :
    (format : Value) (o : Option ℕ)
    → ((n : ℕ) → o ≡ some n → n < usize_end)
    → Keeps (link_at format o)
Keeps-link_at format none h s b = Extends-refl s
Keeps-link_at format (some n) h s b = record {
  same_scope = refl;
  forward = omega arith;
  inside = λ i. i;
  queued = ((n, format) ∷ [], refl, (h n refl, tt));
}

to_usize-lt : (z : ℤ) (n : ℕ) → to_usize z ≡ some n → n < usize_end
to_usize-lt (pos m) n e = ground arith
to_usize-lt (negsuc m) n e = cc

pub Keeps-read_link : (base offset format : Value) → Keeps (read_link base offset format)
unfolding read_link
Keeps-read_link (Value.primitive (Primitive.pos base)) (Value.primitive (Primitive.int offset))
      format =
    Keeps-link_at format _ (to_usize-lt (offset +ℤ pos base))
Keeps-read_link _ _ format = Keeps-invalid
