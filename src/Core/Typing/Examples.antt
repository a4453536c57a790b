-- ===== src/Core/Typing/Examples.antt =====
-- fathom/src/lang/core/typing.rs: runs of the type checker on concrete input.
use ddl.Prelude.{String, List, [], ◌∷◌, ◌≡◌, ◌≢◌, refl, arith}
use ddl.Outcome.{ok, panic, unwrap_none}
use ddl.Core.Term.{Term, Item, Module, FieldDeclaration, type}
use ddl.Core.Globals.{default}
use ddl.Core.Globals
use ddl.Core.Locals.{Locals, index_to_level, level_to_index}
use ddl.Core.Locals
use ddl.Core.Semantics.Value.{
  Value, Head, Elims, stuck, no_elims, more_elims, struct, global_value, local_value, count_elims,
}
use ddl.Core.Semantics.Eval.{eval_term}
use ddl.Core.Semantics.Eval
use ddl.Core.Semantics.ReadBack
use ddl.Core.Semantics.Equal
use ddl.Core.Semantics.Equal.{is_equal_value}
use ddl.Core.Typing.Message.{
  CoreTypingMessage, local_index_not_found, field_redeclaration, type_mismatch,
}
use ddl.Core.Typing.Context.{
  Context, get_local_type, push_local, push_local_param, truncate_locals, push_message, eval,
  read_back, is_equal,
}
use ddl.Core.Typing.Terms.{
  check_term, check_data, check_synth, synth_term, mismatch, sort_of, sort_of_sort,
}
use ddl.Core.Typing.Judgements.{
  Params, synth_type, check_type, synth_sort, check_struct, check_item, check_items, is_module,
  synth_params, push_params, check_declarations, return_type, define_item, clear_items,
}
use ddl.Core.Typing.Quiet.{Appends}
use ddl.Core.Typing.Quiet.Check.{check_type-Appends}
use ddl.Core.Typing.Quiet.Modules.{is_module-Appends}
use ddl.Core.Typing.Params.{check_struct-local_param}
use ddl.Core.Typing.Agree.{check_type-HasStruct}

abbrev empty : Context
empty = record {
  globals = default;
  item_declarations = [];
  item_definitions = [];
  local_declarations = [];
  local_definitions = record { entries = [] };
  messages = [];
}

abbrev with_messages : Context → List CoreTypingMessage → Context
with_messages c messages = record c { messages = messages }

-- A local that is not there is reported, and its type is an error.
unbound_checked :
    check_type 3 (Term.local 0) (global_value "Bool") empty
    ≡ ok (tt, with_messages empty (local_index_not_found 0 ∷ []))
unfolding check_type check_term check_data check_synth synth_term get_local_type is_equal
    push_message index_to_level Locals.size Equal.is_equal is_equal_value
unbound_checked = refl

check_type-Appends_example : Appends empty (with_messages empty (local_index_not_found 0 ∷ []))
check_type-Appends_example =
    check_type-Appends 3 (Term.local 0) (global_value "Bool") empty
      (with_messages empty (local_index_not_found 0 ∷ [])) unbound_checked

abbrev field_named : String → Term → FieldDeclaration
field_named label type' = record { doc = []; label = label; type_ = type' }

-- struct Twice (A : Type) { x : Int, x : Bool }
abbrev twice : Module
twice = record {
  doc = [];
  items =
      Item.struct_type (record {
        doc = [];
        name = "Twice";
        params = ("A", Term.sort type) ∷ [];
        fields = field_named "x" (Term.global "Int") ∷ field_named "x" (Term.global "Bool") ∷ [];
      })
      ∷ [];
}

twice_checked :
    is_module 4 twice empty ≡ ok (tt, with_messages empty (field_redeclaration "x" ∷ []))
unfolding is_module check_items check_item check_struct synth_params push_params check_declarations
    return_type define_item clear_items check_type synth_type synth_sort sort_of check_term
    check_data check_synth synth_term sort_of_sort get_local_type is_equal push_message push_local
    push_local_param truncate_locals eval Eval.eval eval_term Locals.size Locals.push
    Locals.truncate Globals.get default Equal.is_equal is_equal_value
twice_checked = refl

is_module-Appends_example : Appends empty (with_messages empty (field_redeclaration "x" ∷ []))
is_module-Appends_example =
    is_module-Appends 4 twice empty (with_messages empty (field_redeclaration "x" ∷ [])) refl refl
      (omega arith, omega arith) twice_checked

-- (A : Type, x : A): the type of the second parameter is the first.
abbrev dependent : Params
dependent = ("A", Term.sort type) ∷ ("x", Term.local 0) ∷ []

dependent_panics : check_struct 4 (Value.sort type) (λ v. v) dependent [] empty ≡ panic unwrap_none
unfolding check_struct synth_params push_params check_declarations return_type synth_type synth_sort
    sort_of synth_term sort_of_sort get_local_type push_message push_local push_local_param
    truncate_locals eval Eval.eval eval_term Locals.get Locals.size Locals.push Locals.truncate
    index_to_level
dependent_panics = refl

check_struct-local_param_example :
    check_struct 4 (Value.sort type) (λ v. v) dependent [] empty ≢ ok (Value.sort type, empty)
check_struct-local_param_example =
    check_struct-local_param 0 empty (omega arith) (omega arith) 4 (Value.sort type) (λ v. v)
      (("A", Term.sort type) ∷ []) [] "x" [] (Value.sort type, empty) refl

-- Two locals, where the type of the second is a field of the first.
abbrev field_t : Elims
field_t = more_elims (struct "t") no_elims

abbrev with_field : Context
with_field = record empty {
  local_declarations = Value.sort type ∷ stuck (Head.local 0) field_t ∷ [];
  local_definitions = record { entries = local_value 0 ∷ local_value 1 ∷ [] };
}

second_synthesized :
    synth_type 3 (Term.local 0) with_field ≡ ok (stuck (Head.local 0) field_t, with_field)
unfolding synth_type synth_term get_local_type index_to_level Locals.size
second_synthesized = refl

second_mismatched :
    check_type 4 (Term.local 0) (stuck (Head.local 0) field_t) with_field
    ≡ ok (
      tt,
      with_messages with_field (
          type_mismatch (Term.struct_elim (Term.local 1) "t") (Term.struct_elim (Term.local 1) "t")
          ∷ []),
    )
unfolding check_type check_term check_data check_synth synth_term get_local_type is_equal
    push_message index_to_level Locals.size Equal.is_equal is_equal_value mismatch read_back
    ReadBack.read_back Equal.is_equal_head Equal.is_equal_spine count_elims Equal.is_equal_elims
    Equal.is_equal_elim ReadBack.read_back_value ReadBack.read_back_neutral ReadBack.read_back_head
    level_to_index ReadBack.read_back_elims ReadBack.read_back_elim
second_mismatched = refl

check_type-HasStruct_example :
    (t : Term) × (with_messages with_field (
        type_mismatch (Term.struct_elim (Term.local 1) "t") (Term.struct_elim (Term.local 1) "t")
        ∷ [])
      ≡ record with_field { messages = type_mismatch t t ∷ [] })
check_type-HasStruct_example =
    check_type-HasStruct 3 (Term.local 0) (Head.local 0) field_t with_field with_field
      (with_messages with_field (
        type_mismatch (Term.struct_elim (Term.local 1) "t") (Term.struct_elim (Term.local 1) "t")
        ∷ []))
      tt tt second_synthesized second_mismatched
