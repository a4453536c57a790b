-- ===== src/Runtime/Scope.antt =====
-- fathom-runtime/src/read.rs: scopes within scopes.
use ddl.Prelude.{
  ℕ, ◌+◌, ◌<◌, ◌≡◌, refl, sym, List, length, drop, leb, arith, Bool-cases, inl, inr, drop-drop,
  length-drop, drop_past, All-drop,
}
use ddl.Outcome.{ok, ◌>>=◌}
use ddl.Runtime.Read.{
  ReadScope, FormatReader, IsByte, IsBuffer, usize_end, data_from, scope_offset, reader_scope,
  reader, current_pos,
}
use ddl.Runtime.UInt.{UInt, read}
use ddl.Runtime.UInt.Decode.{at, size_pos, read-decode}

data_from-drop : (n : ℕ) (xs : List ℕ) → data_from n xs ≡ drop n xs
unfolding data_from
data_from-drop n xs = elim (Bool-cases (leb n (length xs))) [
  | inl inside ↦ rw inside
  | inr past ↦ rw past (sym (drop_past n xs (ground arith)))
]

-- An offset into an offset scope is one offset, past the end of the data too, as long as the
-- position fits a `usize`.
pub scope_offset_twice :
    (s : ReadScope) (a b : ℕ)
    → s.base + (a + b) < usize_end
    → (scope_offset s a >>= λ t. scope_offset t b) ≡ scope_offset s (a + b)
unfolding scope_offset
scope_offset_twice s a b h = ground (
  arith,
  data_from-drop a s.bytes,
  data_from-drop b (data_from a s.bytes),
  data_from-drop (a + b) s.bytes,
  drop-drop a b s.bytes,
)

-- The scope of a reader, by its parts.
reader_scope-ok :
    (r : FormatReader) (s : ReadScope)
    → reader_scope r ≡ ok s
    → (s ≡ record { base = r.scope.base + r.offset; bytes = drop r.offset r.scope.bytes })
      × (r.scope.base + r.offset < usize_end)
unfolding reader_scope scope_offset
reader_scope-ok r s e = ground (arith, data_from-drop r.offset r.scope.bytes)

module _ (r : FormatReader) where
  abbrev inner : ReadScope
  inner = record { base = r.scope.base + r.offset; bytes = drop r.offset r.scope.bytes }

  inner-IsBuffer : IsBuffer r.scope.bytes → IsBuffer (drop r.offset r.scope.bytes)
  inner-IsBuffer b = record {
    in_memory = omega (arith, length-drop {0} r.offset r.scope.bytes, b.in_memory);
    all_bytes = All-drop IsByte r.offset r.scope.bytes b.all_bytes;
  }

  read-inner : (u : UInt) → IsBuffer r.scope.bytes → (read u (at inner 0)).0 ≡ (read u r).0
  read-inner u b = ground (
    arith,
    read-decode u r b,
    read-decode u (at inner 0) (inner-IsBuffer b),
    length-drop r.offset r.scope.bytes,
    size_pos u,
  )

-- Over a buffer, if `reader_scope` does not panic: a reader of the scope that a reader stands at has
-- the same position, and reads the same number or the same error.
pub read-reader_scope :
    (u : UInt) (r : FormatReader) (s : ReadScope)
    → IsBuffer r.scope.bytes
    → reader_scope r ≡ ok s
    → (current_pos (reader s) ≡ current_pos r) × ((read u (reader s)).0 ≡ (read u r).0)
unfolding reader current_pos
read-reader_scope u r s b e =
    let (parts, fits) = reader_scope-ok r s e in
    let start : r.scope.base + r.offset + 0 ≡ r.scope.base + r.offset = omega arith in
    rw (parts, start) (refl, read-inner r u b)

-- The data of an inner scope is a buffer too.
pub scope_offset-IsBuffer :
    (s : ReadScope) (offset : ℕ) (t : ReadScope)
    → IsBuffer s.bytes
    → scope_offset s offset ≡ ok t
    → IsBuffer t.bytes
unfolding scope_offset
scope_offset-IsBuffer s offset t b e =
    let bytes : t.bytes ≡ drop offset s.bytes = ground (arith, data_from-drop offset s.bytes) in
    rw bytes (inner-IsBuffer (at s offset) b)
