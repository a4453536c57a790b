-- ===== src/Core/Binary/Layout/Items.antt =====
-- fathom/src/lang/core/binary/read.rs: exactly when `read_item` reads an item of a fixed size.
use ddl.Prelude.{ℕ, suc, ◌+◌, ◌≤◌, ◌<◌, ◌≡◌, ◌⊎◌, inl, inr, String, some, [], length, arith}
use ddl.Outcome.{ok, err}
use ddl.Runtime.Read.{
  FormatReader, IsBuffer, usize_end, eof, read_eof_error, scope_offset, reader_scope, data_from,
}
use ddl.Runtime.UInt.Decode.{at}
use ddl.Core.Term.{get_entry}
use ddl.Core.Semantics.Value.{Value, ItemData}
use ddl.Core.Binary.Session.{Context, Session}
use ddl.Core.Binary.Item.{read_item, read_linked, read_named, follow_links}
use ddl.Core.Binary.Layout.{Layout, width, nesting, HasLengths, to_format}
use ddl.Core.Binary.Layout.Takes.{read_format-width}

-- The session of a reader when no link is pending.
abbrev pub session_of : FormatReader → Session
session_of r = record { pending_links = []; reader = r }

root_of :
    (r : FormatReader)
    → r.scope.base + r.offset < usize_end
    → reader_scope r
      ≡ ok (record { base = r.scope.base + r.offset; bytes = data_from r.offset r.scope.bytes })
unfolding reader_scope scope_offset
root_of r h = ground arith

module _ (rounds fuel : ℕ) (ctx : Context) (name : String) (l : Layout) (r : FormatReader) where
  -- An item that is a constant, a format of a fixed size whose array lengths fit a `usize`,
  -- with fuel for its nesting and for one round, over a buffer, with a reader that is not past
  -- its end and whose position fits a `usize`, and with no link pending: if as many bytes are
  -- left as the size, `read_item` gives a value and no parsed links, and moves the reader past
  -- just these bytes; and if fewer are left, it answers `Eof` and leaves no link pending.
  pub read_item-width :
      get_entry ctx.items name ≡ some (ItemData.constant (to_format l))
      → HasLengths l
      → nesting l ≤ fuel
      → IsBuffer r.scope.bytes
      → r.offset ≤ length r.scope.bytes
      → r.scope.base + r.offset < usize_end
      → ((r.offset + width l ≤ length r.scope.bytes)
          × ((v : Value) × (read_item (suc rounds) fuel ctx name (session_of r)
                ≡ (ok (v, []), session_of (at r.scope (r.offset + width l))))))
        ⊎ ((length r.scope.bytes < r.offset + width l)
            × ((r' : FormatReader) × (read_item (suc rounds) fuel ctx name (session_of r)
                  ≡ (err (eof read_eof_error), session_of r'))))
  unfolding read_item read_linked read_named follow_links
  read_item-width e h d b i p = elim (read_format-width fuel ctx l (session_of r) h d b i) [
    | inl (fits, (v, q)) ↦ inl (fits, (v, rw (e, root_of r p, q)))
    | inr (short, (s', q)) ↦ inr (short, (s'.reader, rw (e, root_of r p, q)))
  ]
