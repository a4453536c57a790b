-- ===== src/Core/Binary/Examples.antt =====
-- fathom/src/lang/core/binary/read.rs: runs of the reader of binary data on concrete input.
use ddl.Prelude.{false, ◌<◌, ◌⊎◌, ◌≡◌, ◌≤◌, refl, List, [], ◌∷◌, some, arith}
use ddl.Prelude.Int.{pos, ◌+ℤ◌}
use ddl.Outcome.{err, ok}
use ddl.Runtime.UInt.Decode.{at}
use ddl.Runtime.Read.{
  FormatReader, eof, read_eof_error, ReadScope, IsBuffer, reader_scope, scope_offset,
  check_available, read_unchecked_u8, current_pos, data_from, reader,
}
use ddl.Runtime.UInt.{u16_be, read, read_unchecked}
use ddl.Core.Term.{Term, Primitive, FieldDeclaration, Item, Module}
use ddl.Core.Globals.{Globals, default}
use ddl.Core.Globals
use ddl.Core.Locals.{
  Locals, index_to_level, level_to_index, index_to_level_inverse, get-push, pop-push,
}
use ddl.Core.Locals
use ddl.Core.Semantics.Value.{
  Head, Value, Items, ItemData, stuck, no_elims, no_values, more_values, no_fields, field, insert,
  push, FieldValues, get_field, global_value,
}
use ddl.Core.Semantics.Elimination.{function_elim}
use ddl.Core.Semantics.Eval.{eval, eval_term}
use ddl.Core.Binary.Session.{Context, Session}
use ddl.Core.Binary.Read.{
  int_value, pos_value, read_format, read_struct_format, read_fields, read_value, read_name,
  push_arguments, take_elims, read_item_elims, read_array, read_current_pos, read_elems,
  read_global, read_link,
}
use ddl.Core.Binary.Item.{
  Links, new, read_item, read_linked, read_named, follow_links, read_link_at,
}
use ddl.Core.Binary.Fields.{IsTyped, declares, read_format-IsTyped}
use ddl.Core.Semantics.Fields.{FieldDeclarations, try_field_declarations, get_field_type}
use ddl.Core.Binary.Layout.{Layout, uint, array, width, to_format}
use ddl.Core.Binary.Layout.Fits.{Fits, IsShort}
use ddl.Core.Binary.Layout.Takes.{read_format-width}
use ddl.Core.Binary.Layout.Typed.{OfType, read_format-OfType}
use ddl.Core.Semantics.Elimination.{repr}
use ddl.Core.Binary.Layout.Items.{session_of, read_item-width}
use ddl.Core.Binary.Extends.{Extends}
use ddl.Core.Binary.Extends.Format.{read_format-Extends}
use ddl.Core.Binary.Extends.Links.{Linked, read_item-Linked}

-- struct Main : Format { len : U8, start : CurrentPos, items : FormatArray len U8, far : Link start 3 U8 }
abbrev main_fields : List FieldDeclaration
main_fields =
    record { doc = []; label = "len"; type_ = Term.global "U8" }
    ∷ record { doc = []; label = "start"; type_ = Term.global "CurrentPos" }
    ∷ record {
      doc = [];
      label = "items";
      type_ =
          Term.function_elim (Term.function_elim (Term.global "FormatArray") (Term.local 1))
            (Term.global "U8");
    }
    ∷ record {
      doc = [];
      label = "far";
      type_ =
          Term.function_elim
            (Term.function_elim (Term.function_elim (Term.global "Link") (Term.local 1))
              (Term.primitive (Primitive.int (pos 3))))
            (Term.global "U8");
    }
    ∷ []

abbrev main_items : Items
main_items = ("Main", ItemData.struct_format 0 main_fields) ∷ []

abbrev main_context : Context
main_context = record { globals = default; items = main_items; locals = Locals.new }

abbrev main_module : Module
main_module = record {
  doc = [];
  items =
      Item.struct_format (record { doc = []; name = "Main"; params = []; fields = main_fields })
      ∷ [];
}

-- `Context::new`
main_new : new 3 default main_module ≡ ok main_context
unfolding new
main_new = refl

abbrev main_scope : ReadScope
main_scope = record { base = 0; bytes = 2 ∷ 10 ∷ 20 ∷ 9 ∷ 77 ∷ [] }

main_scope-IsBuffer : IsBuffer main_scope.bytes
main_scope-IsBuffer = record {
  in_memory = omega arith;
  all_bytes = (omega arith, (omega arith, (omega arith, (omega arith, (omega arith, tt)))));
}

abbrev main_start : Session
main_start = record { pending_links = []; reader = record { scope = main_scope; offset = 0 } }

abbrev main_end : Session
main_end = record { pending_links = []; reader = record { scope = main_scope; offset = 3 } }

abbrev main_value : Value
main_value = Value.struct_term (
    field "far" (pos_value 4) (
      field "items"
        (Value.array_term
          (more_values (int_value (pos 10)) (more_values (int_value (pos 20)) no_values)))
        (field "len" (int_value (pos 2)) (field "start" (pos_value 1) no_fields))))

abbrev main_links : Links
main_links = (4, int_value (pos 77)) ∷ []

main_read : read_item 2 5 main_context "Main" main_start ≡ (ok (main_value, main_links), main_end)
unfolding read_item reader_scope scope_offset read_linked read_named read_struct_format read_fields
    eval eval_term Globals.get default read_format read_value read_name read check_available
    read_unchecked read_unchecked_u8 follow_links read_link_at push_arguments read_array
    read_current_pos read_elems read_global read_link Locals.get Locals.push Locals.size
    index_to_level function_elim insert push ◌+ℤ◌ current_pos data_from reader
main_read = refl

-- After the item, its link is in the queue.
abbrev main_queued : Session
main_queued = record main_end { pending_links = (4, global_value "U8") ∷ [] }

main_format_read :
    read_format 6 main_context (stuck (Head.item "Main") no_elims) main_start
    ≡ (ok main_value, main_queued)
unfolding read_item_elims take_elims read_struct_format read_fields eval eval_term Globals.get
    default read_format read_value read_name read check_available read_unchecked read_unchecked_u8
    push_arguments read_array read_current_pos read_elems read_global read_link Locals.get
    Locals.push Locals.size index_to_level function_elim insert push ◌+ℤ◌ current_pos
main_format_read = refl

-- The array has the length that was read.
read_format-IsTyped_example :
    (fs : FieldValues) × (declarations : FieldDeclarations) × (main_value ≡ Value.struct_term fs)
    × (try_field_declarations (ItemData.struct_format 0 main_fields) no_elims
        ≡ ok (some declarations))
    × IsTyped
        (read_format 5 main_context)
        (declares "items" main_fields)
        (get_field fs "items")
        (get_field_type
          (eval 5 default main_items)
          (record declarations { is_format = false })
          main_value
          "items")
        (get_field_type (eval 5 default main_items) declarations main_value "items")
read_format-IsTyped_example =
    read_format-IsTyped 5 main_context "Main" "items" 0 main_fields no_elims main_start main_queued
      main_value refl (refl, (refl, (refl, (refl, tt)))) main_format_read

read_item-Linked_example :
    Linked 5 main_context
      (some (ItemData.struct_format 0 main_fields))
      main_value
      main_links
      main_start
      main_end
read_item-Linked_example =
    read_item-Linked 2 5 main_context "Main" main_start main_end main_value main_links
      main_scope-IsBuffer main_read

read_format-Extends_example :
    Extends main_start (read_format 5 main_context (stuck (Head.item "Main") no_elims) main_start).1
read_format-Extends_example =
    read_format-Extends 5 main_context (stuck (Head.item "Main") no_elims) main_start
      main_scope-IsBuffer

-- Two numbers of two bytes each, which are there.
abbrev pair : Layout
pair = array 2 (uint u16_be)

read_format-width_example :
    Fits (read_format 3 main_context (to_format pair)) (width pair) main_start
    ⊎ IsShort (read_format 3 main_context (to_format pair)) (width pair) main_start
read_format-width_example =
    read_format-width 3 main_context pair main_start (omega arith, tt) (omega arith)
      main_scope-IsBuffer (omega arith)

abbrev pair_context : Context
pair_context = record {
  globals = default;
  items = ("Pair", ItemData.constant (to_format pair)) ∷ [];
  locals = Locals.new;
}

read_item-width_example :
    ((4 ≤ 5)
      × ((v : Value) × (read_item 1 3 pair_context "Pair" main_start
            ≡ (ok (v, []), session_of (at main_scope 4)))))
    ⊎ ((5 < 4)
        × ((r : FormatReader) × (read_item 1 3 pair_context "Pair" main_start
              ≡ (err (eof read_eof_error), session_of r))))
read_item-width_example =
    read_item-width 0 3 pair_context "Pair" pair (at main_scope 0) refl (omega arith, tt)
      (omega arith) main_scope-IsBuffer (omega arith) (omega arith)

abbrev pair_value : Value
pair_value =
    Value.array_term
      (more_values (int_value (pos 522)) (more_values (int_value (pos 5129)) no_values))

pair_read :
    read_format 3 main_context (to_format pair) main_start
    ≡ (ok pair_value, session_of (at main_scope 4))
unfolding read_format read_value read_global read_array read_elems read_name read check_available
    read_unchecked read_unchecked_u8
pair_read = refl

read_format-OfType_example : OfType (repr (to_format pair)) pair_value
read_format-OfType_example =
    read_format-OfType 3 main_context pair main_start (session_of (at main_scope 4)) pair_value
      (omega arith, tt) pair_read
