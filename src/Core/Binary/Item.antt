-- ===== src/Core/Binary/Item.antt =====
-- fathom/src/lang/core/binary/read.rs: `Context::new` and `read_item`, which reads an item and then
-- the data that its links point to.
use ddl.Prelude.{
  ℕ, zero, suc, ◌==◌, String, List, [], ◌∷◌, Option, none, some, length, if◌then◌else◌,
}
use ddl.Outcome.{Outcome, ok, err, panic, timeout}
use ddl.Outcome as Outcomes
use ddl.Runtime.Read.{
  FormatReader, ReadScope, ReadError, duplicate_position, scope_offset, reader_scope, reader,
}
use ddl.Core.Term.{Module, Item, get_entry}
use ddl.Core.Globals.{Globals}
use ddl.Core.Locals.{Locals}
use ddl.Core.Locals
use ddl.Core.Semantics.Value.{Value, no_elims, ItemData, Items}
use ddl.Core.Semantics.Eval.{eval}
use ddl.Core.Binary.Session.{Context, Session, Parses, after, ◌>>=◌, pure, invalid}
use ddl.Core.Binary.Read.{read_format, read_struct_format}

abbrev list_length {ℓ} : {A : Type ℓ} → List A → ℕ
list_length xs = length xs

-- An item of the module, evaluated with the items before it.
unfoldable pub new_item : ℕ → Globals → Items → Item → Outcome ⊥ (String × ItemData)
new_item fuel globals items (Item.constant c) =
    Outcomes.◌>>=◌ (eval fuel globals items Locals.new c.term)
      λ value. ok (c.name, ItemData.constant value)
new_item fuel globals items (Item.struct_type t) =
    ok (t.name, ItemData.struct_type (list_length t.params) t.fields)
new_item fuel globals items (Item.struct_format t) =
    ok (t.name, ItemData.struct_format (list_length t.params) t.fields)

-- The loop of `Context::new`. A later item hides an earlier one of the same name.
unfoldable pub new_items : ℕ → Globals → List Item → Items → Outcome ⊥ Items
unfolding new_item
new_items fuel globals [] items = ok items
new_items fuel globals (item ∷ rest) items =
    Outcomes.◌>>=◌ (new_item fuel globals items item)
      λ entry. new_items fuel globals rest (entry ∷ items)

unfoldable pub new : ℕ → Globals → Module → Outcome ⊥ Context
unfolding new_items
new fuel globals m =
    Outcomes.◌>>=◌ (new_items fuel globals m.items [])
      λ items. ok (record { globals = globals; items = items; locals = Locals.new })

-- `HashMap<usize, Arc<Value>>`
abbrev pub Links : Type 0
Links = List (ℕ × Value)

abbrev pub get_link : Links → ℕ → Option Value
get_link [] offset = none
get_link ((offset', value) ∷ rest) offset =
    if offset' == offset then some value else get_link rest offset

-- The first `match` of `read_item`.
unfoldable pub read_named : ℕ → Context → Option ItemData → Parses Value
read_named fuel ctx (some (ItemData.constant value)) = read_format fuel ctx value
read_named fuel ctx (some (ItemData.struct_format zero field_declarations)) =
    read_struct_format (eval fuel ctx.globals ctx.items) (read_format fuel ctx) field_declarations
      no_elims
read_named fuel ctx _ = invalid

-- What an inner reader did, with the outer reader as it was.
abbrev pub restore {ℓ} :
    {A : Type ℓ} → FormatReader → Outcome ReadError A × Session → Outcome ReadError A × Session
restore r (result, s) = (result, record s { reader = r })

abbrev pub read_in_scope : ℕ → Context → Value → Outcome ReadError ReadScope → Parses Value
read_in_scope fuel ctx format (ok scope) s =
    restore s.reader (read_format fuel ctx format (record s { reader = reader scope }))
read_in_scope fuel ctx format (err e) s = (err e, s)
read_in_scope fuel ctx format (panic x) s = (panic x, s)
read_in_scope fuel ctx format timeout s = (timeout, s)

-- A link is read by a reader of its own, at its offset in the root scope.
unfoldable pub read_link_at : ℕ → Context → ReadScope → ℕ → Value → Parses Value
read_link_at fuel ctx root_scope offset format =
    read_in_scope fuel ctx format (scope_offset root_scope offset)

-- The two arms for the entry of an offset. `next` goes on with the loop.
abbrev pub follow_entry :
    (Links → Parses Links)
    → ℕ
    → Context
    → ReadScope
    → Links
    → ℕ
    → Value
    → Option Value
    → Parses Links
follow_entry next fuel ctx root_scope parsed offset format none s =
    after (read_link_at fuel ctx root_scope offset format s)
      λ value. next ((offset, value) ∷ parsed)
follow_entry next fuel ctx root_scope parsed offset format (some _) s =
    (err (duplicate_position offset), record s { pending_links = [] })

-- One round of the loop, by the queue: the first link is taken off.
abbrev pub follow_next :
    (Links → Parses Links) → ℕ → Context → ReadScope → Links → List (ℕ × Value) → Parses Links
follow_next next fuel ctx root_scope parsed [] s = (ok parsed, s)
follow_next next fuel ctx root_scope parsed ((offset, format) ∷ rest) s =
    follow_entry next fuel ctx root_scope parsed offset format (get_link parsed offset)
      (record s { pending_links = rest })

-- The loop over the pending links. Each round spends one unit of `rounds`.
unfoldable pub follow_links : ℕ → ℕ → Context → ReadScope → Links → Parses Links
follow_links zero fuel ctx root_scope parsed s = (timeout, s)
follow_links (suc rounds) fuel ctx root_scope parsed s =
    follow_next (follow_links rounds fuel ctx root_scope) fuel ctx root_scope parsed s.pending_links
      s

-- The links are followed only if the item was read.
unfoldable pub read_linked : ℕ → ℕ → Context → ReadScope → Option ItemData → Parses (Value × Links)
read_linked rounds fuel ctx root_scope data' = do
  parsed_value ← read_named fuel ctx data'
  parsed_links ← follow_links rounds fuel ctx root_scope []
  pure (parsed_value, parsed_links)

-- `self.pending_links.clear()`, on every way out.
abbrev pub clear_pending {ℓ} :
    {A : Type ℓ} → Outcome ReadError A × Session → Outcome ReadError A × Session
clear_pending (result, s) = (result, record s { pending_links = [] })

abbrev pub read_rooted :
    ℕ → ℕ → Context → Option ItemData → Outcome ReadError ReadScope → Parses (Value × Links)
read_rooted rounds fuel ctx data' (ok root_scope) s =
    clear_pending (read_linked rounds fuel ctx root_scope data' s)
read_rooted rounds fuel ctx data' (err e) s = (err e, s)
read_rooted rounds fuel ctx data' (panic x) s = (panic x, s)
read_rooted rounds fuel ctx data' timeout s = (timeout, s)

unfoldable pub read_item : ℕ → ℕ → Context → String → Parses (Value × Links)
read_item rounds fuel ctx name s =
    read_rooted rounds fuel ctx (get_entry ctx.items name) (reader_scope s.reader) s
