-- ===== src/Surface/Elaborate/Omitted.antt =====
-- fathom/src/pass/surface_to_core.rs: a field that the elaboration of a struct term leaves out.
use ddl.Prelude.{[], ◌∷◌, ◌≡◌, refl}
use ddl.Outcome.{ok}
use ddl.Core.Term as Core
use ddl.Core.Term.{Sort, type}
use ddl.Core.Globals.{default}
use ddl.Core.Globals
use ddl.Core.Locals
use ddl.Core.Semantics.Value.{Value, ItemData, item_value}
use ddl.Core.Semantics.Eval
use ddl.Core.Semantics.Eval.{eval_term}
use ddl.Core.Semantics.Equal
use ddl.Core.Semantics.Equal.{is_equal_value}
use ddl.Core.Semantics.Fields.{try_field_declarations, push_elims}
use ddl.Core.Typing.Context as Checked
use ddl.Core.Typing.Terms
use ddl.Core.Typing.Judgements as Judged
use ddl.Core.Typing.Message.{missing_struct_fields}
use ddl.Surface.Term.{Term, FieldDefinitions}
use ddl.Surface.Elaborate.Message.{surface_to_core, var_name_not_found}
use ddl.Surface.Elaborate.Context.{Context, force_field_declarations, is_equal}
use ddl.Surface.Elaborate.Check.{check_term}
use ddl.Surface.Elaborate.Synth.{synth_term}
use ddl.Surface.Elaborate.Judgements.{check_type}
use ddl.Surface.Elaborate.Sound.{core_context}
use ddl.Surface.Elaborate.Examples.{host}

-- struct Pair : Type { a : Int, b : Int }
abbrev pairs : Context
pairs = record {
  globals = default;
  item_declarations = ("Pair", Value.sort type) ∷ [];
  item_definitions =
      (
        "Pair",
        ItemData.struct_type 0 (
            record { doc = []; label = "a"; type_ = Core.Term.global "Int" }
            ∷ record { doc = []; label = "b"; type_ = Core.Term.global "Int" }
            ∷ []),
      )
      ∷ [];
  local_declarations = [];
  local_definitions = Locals.new;
  core_to_surface = Locals.new;
  messages = [];
}

-- A field that has an error, before one that has none: the second is left out, without a message.
pair_elaborated :
    check_type host 4
      (Term.struct_term (
        FieldDefinitions.field "a"
          (Term.name "x")
          (FieldDefinitions.field "b" (Term.number_literal "0") FieldDefinitions.no_fields)))
      (item_value "Pair")
      pairs
    ≡ ok (
      Core.Term.struct_term
          (Core.FieldDefinitions.field "a" Core.Term.error Core.FieldDefinitions.no_fields),
      record pairs { messages = surface_to_core (var_name_not_found "x") ∷ [] },
    )
unfolding check_type check_term force_field_declarations try_field_declarations push_elims Eval.eval
    eval_term Globals.get default synth_term is_equal Equal.is_equal is_equal_value
pair_elaborated = refl

-- The core checker reports the field that was left out.
pair_checked :
    Judged.check_type 4
      (Core.Term.struct_term
        (Core.FieldDefinitions.field "a" Core.Term.error Core.FieldDefinitions.no_fields))
      (item_value "Pair")
      (core_context pairs)
    ≡ ok (tt, record (core_context pairs) { messages = missing_struct_fields ("b" ∷ []) ∷ [] })
unfolding Judged.check_type Terms.check_term Checked.force_field_declarations try_field_declarations
    push_elims Eval.eval eval_term Globals.get default Checked.eval Checked.push_message
pair_checked = refl
