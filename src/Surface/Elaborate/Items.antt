-- ===== src/Surface/Elaborate/Items.antt =====
-- fathom/src/pass/surface_to_core.rs: `from_module`, over its items.
use ddl.Prelude.{ℕ, List, [], ◌∷◌, ◌++◌, Option, some, none}
use ddl.Outcome.{ok}
use ddl.Core.Term as Core
use ddl.Core.Term.{Sort, type, get_entry}
use ddl.Core.Semantics.Value.{Value, ItemData}
use ddl.Surface.Term.{Term, StructType, Item, Module}
use ddl.Surface.Elaborate.Message.{
  surface_to_core, item_redefinition, missing_struct_annotation, invalid_struct_annotation,
}
use ddl.Surface.Elaborate.Context.{
  Elaborates, ◌>>=◌, ◌>>◌, pure, push_message, eval, read_back_to_surface,
}
use ddl.Surface.Elaborate.Host.{Host, Typed}
use ddl.Surface.Elaborate.Synth.{error_typed}
use ddl.Surface.Elaborate.Judgements.{
  synth_type, check_type, is_type, Elaborated, is_struct_type, is_struct_format,
}

module _ (host : Host) (fuel : ℕ) where
  -- By the annotation of the struct.
  abbrev pub annotated_struct : StructType → Value → Elaborates (Option Elaborated)
  annotated_struct t (Value.sort type) = do entry ← is_struct_type host fuel t; pure (some entry)
  annotated_struct t Value.format_type = do entry ← is_struct_format host fuel t; pure (some entry)
  annotated_struct t Value.error = pure none
  annotated_struct t value = do
    distilled ← read_back_to_surface host.display fuel value
    push_message (surface_to_core (invalid_struct_annotation t.name distilled))
    pure none

  -- A constant with a type that is no error.
  abbrev pub annotated_constant : Term → Core.Term → Elaborates Typed
  annotated_constant term Core.Term.error = pure error_typed
  annotated_constant term core_type = do
    expected ← eval fuel core_type
    core_term ← check_type host fuel term expected
    pure (Core.Term.ann core_term core_type, expected)

  abbrev pub constant_term : Term → Option Term → Elaborates Typed
  constant_term term (some surface_type) = do
    (core_type, _) ← is_type host fuel surface_type
    annotated_constant term core_type
  constant_term term none = synth_type host fuel term

  -- `none` where the loop goes on with the next item.
  unfoldable pub elaborate_item : Item → Elaborates (Option Elaborated)
  unfolding is_type is_struct_type is_struct_format
  elaborate_item (Item.constant k) = do
    (core_term, constant_type) ← constant_term k.term k.type_
    value ← eval fuel core_term
    pure (
        some (
          k.name,
          Core.Item.constant (record { doc = k.doc; name = k.name; term = core_term }),
          ItemData.constant value,
          constant_type,
        ))
  elaborate_item (Item.struct_type t) = elim t.type_ [
    | none ↦ push_message (surface_to_core (missing_struct_annotation t.name)) >> pure none
    | some annotation ↦ do
      (core_type, _) ← is_type host fuel annotation
      value ← eval fuel core_type
      annotated_struct t value
  ]

  -- A name that is taken is reported, and keeps its first definition.
  abbrev pub define_found : Elaborated → Option ItemData → Elaborates (List Core.Item)
  define_found (name, item, definition, type') none c = ok (
    item ∷ [],
    record c {
      item_declarations = (name, type') ∷ c.item_declarations;
      item_definitions = (name, definition) ∷ c.item_definitions;
    },
  )
  define_found (name, item, definition, type') (some _) c =
      (push_message (surface_to_core (item_redefinition name)) >> pure []) c

  abbrev pub define_item : Option Elaborated → Elaborates (List Core.Item)
  define_item none = pure []
  define_item (some entry) = λ c. define_found entry (get_entry c.item_definitions entry.0) c

  unfoldable pub elaborate_items : List Item → Elaborates (List Core.Item)
  unfolding elaborate_item
  elaborate_items [] = pure []
  elaborate_items (item ∷ rest) = do
    entry ← elaborate_item item
    defined ← define_item entry
    later ← elaborate_items rest
    pure (defined ++ later)

  unfoldable pub clear_items : Elaborates (Unit {0})
  clear_items c = ok (tt, record c { item_declarations = []; item_definitions = [] })

  -- `from_module`
  unfoldable pub elaborate_module : Module → Elaborates Core.Module
  unfolding elaborate_items clear_items
  elaborate_module m = do
    items ← elaborate_items m.items
    clear_items
    pure (record { doc = m.doc; items = items })
