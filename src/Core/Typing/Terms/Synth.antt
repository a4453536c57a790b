-- ===== src/Core/Typing/Terms/Synth.antt =====
-- fathom/src/lang/core/typing.rs: the bodies of `synth_sort` and `synth_type`.
use ddl.Prelude.{ℕ, String, Bool, true, false, Option, some, none}
use ddl.Core.Term.{Term, Sort, type, kind, Primitive, get_entry}
use ddl.Core.Globals
use ddl.Core.Semantics.Value.{Value, global_value}
use ddl.Core.Semantics.Eval
use ddl.Core.Semantics.Fields.{FieldDeclarations, get_field_type}
use ddl.Core.Typing.Message.{
  CoreTypingMessage, global_name_not_found, item_name_not_found, local_index_not_found,
  universe_mismatch, term_has_no_type, not_a_function, field_not_found, ambiguous_term,
}
use ddl.Core.Typing.Context.{
  Checks, ◌>>=◌, ◌>>◌, pure, reads, get_local_type, push_message, force_field_declarations, eval,
  read_back, is_equal,
}
use ddl.Core.Typing.Terms.Check.{mismatch}

-- `axiom`
unfoldable pub sort_of_sort : Sort → Option Sort
sort_of_sort type = some kind
sort_of_sort kind = none

unfoldable pub rule : Sort → Sort → Sort
rule type type = type
rule type kind = kind
rule kind type = kind
rule kind kind = kind

-- A message, and an error in place of a type.
abbrev pub fail : CoreTypingMessage → Checks Value
fail message = push_message message >> pure Value.error

module _ (fuel : ℕ) (synth_type : Term → Checks Value)
    (check_type : Term → Value → Checks (Unit {0})) where
  abbrev pub sort_or_mismatch : Value → Checks (Option Sort)
  sort_or_mismatch Value.error = pure none
  sort_or_mismatch (Value.sort sort) = pure (some sort)
  sort_or_mismatch found = do
    found_type ← read_back fuel found
    push_message (universe_mismatch found_type)
    pure none

  unfoldable pub sort_of : Term → Checks (Option Sort)
  sort_of term = do type' ← synth_type term; sort_or_mismatch type'

  abbrev pub type_or_error : Option Sort → Checks Value → Checks Value
  type_or_error none m = pure Value.error
  type_or_error (some _) m = m

  abbrev pub apply_type : Term → Value → Checks Value
  apply_type argument (Value.function_type param_type body_type) = do
    check_type argument param_type
    pure body_type
  apply_type argument Value.error = pure Value.error
  apply_type argument head = do head_type ← read_back fuel head; fail (not_a_function head_type)

  abbrev pub no_field : Value → String → Checks Value
  no_field head_type label = do
    head_type' ← read_back fuel head_type
    fail (field_not_found head_type' label)

  abbrev pub field_or_none : Value → String → Option Value → Checks Value
  field_or_none head_type label (some field_type) = pure field_type
  field_or_none head_type label none = no_field head_type label

  abbrev pub field_of : Term → Value → String → Option FieldDeclarations → Checks Value
  field_of head head_type label none = no_field head_type label
  field_of head head_type label (some declarations) = do
    head_value ← eval fuel head
    field_type ← reads λ c.
        get_field_type (Eval.eval fuel c.globals c.item_definitions) declarations head_value label
    field_or_none head_type label field_type

  -- After the head of a lookup has a type.
  abbrev pub synth_field : Term → String → Value → Checks Value
  synth_field head label Value.error = pure Value.error
  synth_field head label head_type = do
    declarations ← force_field_declarations head_type
    field_of head head_type label declarations

  abbrev pub synth_global : String → Option (Term × Option Term) → Checks Value
  synth_global name (some (type', _)) = eval fuel type'
  synth_global name none = fail (global_name_not_found name)

  abbrev pub type_or_fail : CoreTypingMessage → Option Value → Checks Value
  type_or_fail message (some type') = pure type'
  type_or_fail message none = fail message

  abbrev pub synth_sort_of : Option Sort → Checks Value
  synth_sort_of (some sort) = pure (Value.sort sort)
  synth_sort_of none = fail term_has_no_type

  abbrev pub function_sort : Option Sort → Option Sort → Value
  function_sort (some param_sort) (some body_sort) = Value.sort (rule param_sort body_sort)
  function_sort _ _ = Value.error

  unfoldable pub synth_primitive : Primitive → Value
  synth_primitive (Primitive.int _) = global_value "Int"
  synth_primitive (Primitive.f32 _) = global_value "F32"
  synth_primitive (Primitive.f64 _) = global_value "F64"
  synth_primitive (Primitive.pos _) = global_value "Pos"

  abbrev pub branch_type : Value → Value → Bool → Checks Value
  branch_type if_true_type if_false_type true = pure if_true_type
  branch_type if_true_type if_false_type false = do
    mismatch fuel synth_type check_type if_true_type if_false_type
    pure Value.error

  -- `synth_type`
  unfoldable pub synth_term : Term → Checks Value
  unfolding sort_of mismatch rule sort_of_sort synth_primitive
  synth_term (Term.global name) = λ c. synth_global name (Globals.get c.globals name) c
  synth_term (Term.item name) =
      λ c. type_or_fail (item_name_not_found name) (get_entry c.item_declarations name) c
  synth_term (Term.local index) =
      λ c. type_or_fail (local_index_not_found index) (get_local_type c index) c
  synth_term (Term.ann term type') = do
    sort ← sort_of type'
    type_or_error sort (do expected ← eval fuel type'; check_type term expected; pure expected)
  synth_term (Term.sort sort) = synth_sort_of (sort_of_sort sort)
  synth_term (Term.function_type param_type body_type) = do
    param_sort ← sort_of param_type
    body_sort ← sort_of body_type
    pure (function_sort param_sort body_sort)
  synth_term (Term.function_elim head argument) = do
    head_type ← synth_type head
    apply_type argument head_type
  synth_term (Term.struct_term _) = fail ambiguous_term
  synth_term (Term.struct_elim head label) = do
    head_type ← synth_type head
    synth_field head label head_type
  synth_term (Term.array_term _) = fail ambiguous_term
  synth_term (Term.primitive primitive) = pure (synth_primitive primitive)
  synth_term (Term.bool_elim head if_true if_false) = do
    check_type head (global_value "Bool")
    if_true_type ← synth_type if_true
    if_false_type ← synth_type if_false
    equal ← is_equal fuel if_true_type if_false_type
    branch_type if_true_type if_false_type equal
  synth_term (Term.int_elim _ _ _) = fail ambiguous_term
  synth_term Term.format_type = pure (Value.sort kind)
  synth_term Term.repr = pure (Value.function_type Value.format_type (Value.sort type))
  synth_term Term.error = pure Value.error
