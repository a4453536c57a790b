-- ===== src/Runtime/Examples.antt =====
-- fathom-runtime/src: runs of the readers and writers on concrete bytes.
use ddl.Prelude.{ℕ, ◌<◌, ◌^◌, ◌++◌, ◌≡◌, refl, List, [], ◌∷◌, reverse, arith}
use ddl.Prelude.Int.{negsuc}
use ddl.Outcome.{ok, err}
use ddl.Runtime.Read.{
  ReadScope, IsBuffer, eof, read_eof_error, reader, new_scope, current_pos, scope_offset,
  reader_scope, data_from, check_available, read_unchecked_u8,
}
use ddl.Runtime.Write.{FormatWriter, new_writer, write_u8}
use ddl.Runtime.UInt.{u16_be, u32_le, u32_be, read, write, read_unchecked}
use ddl.Runtime.UInt.Bytes.{encode, swap_order}
use ddl.Runtime.UInt.Decode.{at, read_result, read-decode}
use ddl.Runtime.UInt.Encode.{write-encode}
use ddl.Runtime.UInt.RoundTrip.{read-write, write-read, read-reverse}
use ddl.Runtime.Number.{
  i32_be, i16_be, f32_be, FloatBits, read_int, write_int, read_float, write_float, as_unsigned,
}
use ddl.Runtime.Number.Bounds.{IntRead, read_int-IntRead}
use ddl.Runtime.Number.RoundTrip.{read_int-write_int}
use ddl.Runtime.Scope.{read-reader_scope}

abbrev bytes_5 : List ℕ
bytes_5 = 1 ∷ 2 ∷ 3 ∷ 4 ∷ 250 ∷ []

bytes_5-IsBuffer : IsBuffer bytes_5
bytes_5-IsBuffer = record {
  in_memory = omega arith;
  all_bytes = (omega arith, (omega arith, (omega arith, (omega arith, (omega arith, tt)))));
}

abbrev scope_5 : ReadScope
scope_5 = record { base = 100; bytes = bytes_5 }

-- A number that is there.
read_big : read u32_be (at scope_5 1) ≡ (ok 0x0203_04fa, at scope_5 5)
unfolding read check_available read_unchecked read_unchecked_u8
read_big = refl

-- A number that is cut short.
read_short : read u32_be (at scope_5 2) ≡ (err (eof read_eof_error), at scope_5 2)
unfolding read check_available read_unchecked read_unchecked_u8
read_short = refl

read-decode_example : read u32_be (at scope_5 1) ≡ read_result u32_be (at scope_5 1)
read-decode_example = read-decode u32_be (at scope_5 1) bytes_5-IsBuffer

abbrev writer_2 : FormatWriter
writer_2 = record { buffer = 7 ∷ 8 ∷ [] }

write-encode_example :
    (write u16_be 0x0304 writer_2).buffer ≡ writer_2.buffer ++ encode u16_be 0x0304
write-encode_example = write-encode u16_be 0x0304 writer_2 (omega arith)

abbrev scope_write : ReadScope
scope_write = record { base = 0; bytes = 7 ∷ 8 ∷ 3 ∷ 4 ∷ 9 ∷ [] }

laid_write : scope_write.bytes ≡ (write u16_be 0x0304 writer_2).buffer ++ (9 ∷ [])
unfolding write write_u8
laid_write = refl

scope_write-IsBuffer : IsBuffer scope_write.bytes
scope_write-IsBuffer = record {
  in_memory = omega arith;
  all_bytes = (omega arith, (omega arith, (omega arith, (omega arith, (omega arith, tt)))));
}

read-write_example : read u16_be (at scope_write 2) ≡ (ok 0x0304, at scope_write 4)
read-write_example =
    read-write u16_be 0x0304 writer_2 scope_write (9 ∷ []) (omega arith) laid_write
      scope_write-IsBuffer

read_le : read u32_le (at scope_5 0) ≡ (ok 0x0403_0201, at scope_5 4)
unfolding read check_available read_unchecked read_unchecked_u8
read_le = refl

write-read_example :
    (0x0403_0201 < 2 ^ 32)
    × ((write u32_le 0x0403_0201 (new_writer [])).buffer ≡ 1 ∷ 2 ∷ 3 ∷ 4 ∷ [])
    × (scope_5 ≡ scope_5)
write-read_example =
    write-read u32_le 0x0403_0201 (at scope_5 0) (at scope_5 4) bytes_5-IsBuffer read_le

abbrev bytes_2 : List ℕ
bytes_2 = 1 ∷ 200 ∷ []

read-reverse_example :
    (read u16_be (reader (new_scope (reverse bytes_2)))).0
    ≡ (read (swap_order u16_be) (reader (new_scope bytes_2))).0
read-reverse_example =
    read-reverse u16_be bytes_2
      (record { in_memory = omega arith; all_bytes = (omega arith, (omega arith, tt)) }) refl

-- A number that needs one byte more than there are.
read_int-IntRead_example : IntRead (at scope_5 2) i32_be
read_int-IntRead_example = read_int-IntRead (at scope_5 2) bytes_5-IsBuffer i32_be

abbrev scope_int : ReadScope
scope_int = record { base = 0; bytes = 7 ∷ 8 ∷ 255 ∷ 254 ∷ 9 ∷ [] }

scope_int-IsBuffer : IsBuffer scope_int.bytes
scope_int-IsBuffer = record {
  in_memory = omega arith;
  all_bytes = (omega arith, (omega arith, (omega arith, (omega arith, (omega arith, tt)))));
}

laid_int : scope_int.bytes ≡ (write_int i16_be (negsuc 1) writer_2).buffer ++ (9 ∷ [])
unfolding write_int write write_u8 as_unsigned
laid_int = refl

-- Minus two, in two's complement.
read_int-write_int_example : read_int i16_be (at scope_int 2) ≡ (ok (negsuc 1), at scope_int 4)
read_int-write_int_example =
    read_int-write_int i16_be (negsuc 1) writer_2 scope_int (9 ∷ []) (ground arith) laid_int
      scope_int-IsBuffer

abbrev nan : FloatBits
nan = record { to_bits = 0x7fc0_0001 }

abbrev scope_float : ReadScope
scope_float = record { base = 0; bytes = 7 ∷ 8 ∷ 0x7f ∷ 0xc0 ∷ 0 ∷ 1 ∷ [] }

nan_written : write_float f32_be nan writer_2 ≡ record { buffer = scope_float.bytes }
unfolding write_float write write_u8
nan_written = refl

nan_read : read_float f32_be (at scope_float 2) ≡ (ok nan, at scope_float 6)
unfolding read_float read check_available read_unchecked read_unchecked_u8
nan_read = refl

abbrev scope_inner : ReadScope
scope_inner = record { base = 101; bytes = 2 ∷ 3 ∷ 4 ∷ 250 ∷ [] }

inner_at : reader_scope (at scope_5 1) ≡ ok scope_inner
unfolding reader_scope scope_offset data_from
inner_at = refl

read-reader_scope_example :
    (current_pos (reader scope_inner) ≡ current_pos (at scope_5 1))
    × ((read u16_be (reader scope_inner)).0 ≡ (read u16_be (at scope_5 1)).0)
read-reader_scope_example =
    read-reader_scope u16_be (at scope_5 1) scope_inner bytes_5-IsBuffer inner_at
