-- ===== src/Runtime/UInt/RoundTrip.antt =====
-- fathom-runtime/src/lib.rs: `read` and `write` undo one another, and the byte orders agree.
use ddl.Prelude.{
  ℕ, ◌+◌, ◌-◌, ◌≤◌, ◌<◌, ◌≡◌, refl, sym, ap, ◌∙◌, List, [], All, ◌++◌, reverse, length, take, arith,
  length-append, length-take, length-drop, drop-append, take-append, take-add, All-take, All-drop,
}
use mathlib.Core.List.{append_assoc, append-nil}
use ddl.Outcome.{ok}
use ddl.Runtime.Read.{ReadScope, FormatReader, IsByte, IsBuffer, new_scope, reader}
use ddl.Runtime.Write.{FormatWriter, new_writer}
use ddl.Runtime.UInt.{UInt, u8, size, host_end, read, write}
use ddl.Runtime.UInt.Bytes.{
  decode, encode, swap_order, decode-encode, encode-decode, decode-lt, decode-reverse,
  length-encode, length-reverse, All-reverse,
}
use ddl.Runtime.UInt.Decode.{at, rest, size_pos, read-decode}
use ddl.Runtime.UInt.Encode.{write-encode}

-- A reader in front of the bytes of a value reads them.
read_front :
    (u : UInt) (r : FormatReader) (bs more : List ℕ)
    → IsBuffer r.scope.bytes
    → rest r ≡ bs ++ more
    → length bs ≡ size u
    → read u r ≡ (ok (decode u bs), at r.scope (r.offset + size u))
read_front u r bs more b e n =
    let front : take (size u) (rest r) ≡ bs = rw (e, ← n) (take-append bs more) in
    let left : length bs + length more ≡ length r.scope.bytes - r.offset =
      sym (length-append bs more) ∙ rw (← e) (length-drop r.offset r.scope.bytes) in
    ground (arith, read-decode u r b, front, left, size_pos u)

-- A reader over a buffer that stands where a value of the host type was written, with anything before
-- and behind it, reads that value and stops behind it.
pub read-write :
    (u : UInt) (v : ℕ) (w : FormatWriter) (s : ReadScope) (more : List ℕ)
    → v < host_end u
    → s.bytes ≡ (write u v w).buffer ++ more
    → IsBuffer s.bytes
    → read u (at s (length w.buffer)) ≡ (ok v, at s (length w.buffer + size u))
read-write u v w s more h e b =
    let laid : s.bytes ≡ w.buffer ++ (encode u v ++ more) =
      e ∙ rw (write-encode u v w h) (append_assoc w.buffer (encode u v) more) in
    let next : rest (at s (length w.buffer)) ≡ encode u v ++ more =
      rw laid (drop-append w.buffer (encode u v ++ more)) in
    rw (decode-encode u v h) at
      (read_front u (at s (length w.buffer)) (encode u v) more b next (length-encode u v))

-- What a successful read says.
pub read-ok :
    (u : UInt) (v : ℕ) (r r' : FormatReader)
    → IsBuffer r.scope.bytes
    → read u r ≡ (ok v, r')
    → (r.offset + size u ≤ length r.scope.bytes)
      × (v ≡ decode u (take (size u) (rest r)))
      × (r' ≡ at r.scope (r.offset + size u))
read-ok u v r r' b e = ground (arith, read-decode u r b)

-- The bytes that a successful read takes.
taken :
    (u : UInt) (r : FormatReader)
    → IsBuffer r.scope.bytes
    → r.offset + size u ≤ length r.scope.bytes
    → All IsByte (take (size u) (rest r)) × (length (take (size u) (rest r)) ≡ size u)
taken u r b fits = (
  All-take IsByte (size u) (rest r) (All-drop IsByte r.offset r.scope.bytes b.all_bytes),
  length-take (size u) (rest r) (omega (arith, length-drop {0} r.offset r.scope.bytes)),
)

-- Where a read over a buffer succeeds, the value fits the host type, writing it behind the bytes
-- before the reader gives the bytes up to where the reader has moved to, and the reader stays in its
-- scope.
pub write-read :
    (u : UInt) (v : ℕ) (r r' : FormatReader)
    → IsBuffer r.scope.bytes
    → read u r ≡ (ok v, r')
    → (v < host_end u)
      × ((write u v (new_writer (take r.offset r.scope.bytes))).buffer
          ≡ take r'.offset r.scope.bytes)
      × (r'.scope ≡ r.scope)
unfolding new_writer
write-read u v r r' b e =
    let (fits, value, moved) = read-ok u v r r' b e in
    let (bytes, n) = taken u r b fits in
    let small : v < host_end u = rw value (decode-lt u _ bytes n) in
    let w = new_writer (take r.offset r.scope.bytes) in
    (
      small,
      write-encode u v w small
          ∙ rw (value, encode-decode u _ bytes n, moved)
              (sym (take-add r.offset (size u) r.scope.bytes)),
      ap (λ (q : FormatReader). q.scope) moved,
    )

size-swap_order : (u : UInt) → size (swap_order u) ≡ size u
size-swap_order u8 = refl
size-swap_order _ = refl

IsBuffer-reverse : (bs : List ℕ) → IsBuffer bs → IsBuffer (reverse bs)
IsBuffer-reverse bs b = record {
  in_memory = omega (arith, length-reverse bs, b.in_memory);
  all_bytes = All-reverse bs b.all_bytes;
}

-- On a buffer of exactly the bytes of the format, reading the reversed bytes in one byte order is
-- reading the bytes in the other.
pub read-reverse :
    (u : UInt) (bs : List ℕ)
    → IsBuffer bs
    → length bs ≡ size u
    → (read u (reader (new_scope (reverse bs)))).0 ≡ (read (swap_order u) (reader (new_scope bs))).0
unfolding reader new_scope
read-reverse u bs b n =
    let turned : ReadScope = record { base = 0; bytes = reverse bs } in
    let plain : ReadScope = record { base = 0; bytes = bs } in
    rw (
      read_front u (at turned 0) (reverse bs) [] (IsBuffer-reverse bs b) (sym (append-nil _))
          (length-reverse bs ∙ n),
      read_front (swap_order u) (at plain 0) bs [] b (sym (append-nil _))
          (n ∙ sym (size-swap_order u)),
      decode-reverse u bs n,
    )
