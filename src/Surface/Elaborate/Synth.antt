-- ===== src/Surface/Elaborate/Synth.antt =====
-- fathom/src/pass/surface_to_core.rs: the bodies of `is_type` and `synth_type`.
use ddl.Prelude.{ℕ, String, Bool, true, false, Option, some, none}
use ddl.Core.Term as Core
use ddl.Core.Term.{Sort, type, kind}
use ddl.Core.Semantics.Value.{Value, global_value}
use ddl.Core.Semantics.Eval
use ddl.Core.Semantics.Fields.{FieldDeclarations, get_field_type}
use ddl.Core.Typing.Terms.{rule}
use ddl.Surface.Term.{Term, Terms, no_terms, more_terms}
use ddl.Surface.Elaborate.Message.{
  universe_mismatch, term_has_no_type, not_a_function, field_not_found, ambiguous_match_expression,
  ambiguous_sequence_term, ambiguous_numeric_literal, ambiguous_struct_term, type_mismatch,
}
use ddl.Surface.Elaborate.Context.{
  Elaborates, ◌>>=◌, pure, reads, force_field_declarations, eval, is_equal, read_back_to_surface,
}
use ddl.Surface.Elaborate.Resolve.{synth_name}
use ddl.Surface.Elaborate.Host.{Host, Typed, reject_value, fail, fail_value}

-- A term that is a type, with its sort.
abbrev pub Sorted : Type 0
Sorted = Core.Term × Option Sort

abbrev pub error_typed : Typed
error_typed = (Core.Term.error, Value.error)

module _ (host : Host) (fuel : ℕ) (synth_type : Term → Elaborates Typed)
    (check_type : Term → Value → Elaborates Core.Term) where
  abbrev pub sort_or_error : Typed → Elaborates Sorted
  sort_or_error (core_term, Value.error) = pure (Core.Term.error, none)
  sort_or_error (core_term, Value.sort sort) = pure (core_term, some sort)
  sort_or_error (core_term, core_type) = do
    error' ← reject_value host fuel core_type universe_mismatch
    pure (error', none)

  unfoldable pub elaborate_type : Term → Elaborates Sorted
  elaborate_type term = do typed ← synth_type term; sort_or_error typed

  -- An annotation whose type is no error.
  abbrev pub annotate : Term → Core.Term → Elaborates Typed
  annotate term core_type = do
    expected ← eval fuel core_type
    core_term ← check_type term expected
    pure (Core.Term.ann core_term core_type, expected)

  abbrev pub annotate_or_error : Term → Core.Term → Elaborates Typed
  annotate_or_error term Core.Term.error = pure error_typed
  annotate_or_error term core_type = annotate term core_type

  abbrev pub function_or_error : Sorted → Sorted → Typed
  function_or_error (param_type, some param_sort) (body_type, some body_sort) =
      (Core.Term.function_type param_type body_type, Value.sort (rule param_sort body_sort))
  function_or_error _ _ = error_typed

  -- The loop over the arguments.
  unfoldable pub apply_arguments : Terms → Core.Term → Value → Elaborates Typed
  apply_arguments no_terms head head_type = pure (head, head_type)
  apply_arguments (more_terms argument rest) head (Value.function_type param_type body_type) = do
    core_argument ← check_type argument param_type
    apply_arguments rest (Core.Term.function_elim head core_argument) body_type
  apply_arguments (more_terms argument rest) head Value.error = pure error_typed
  apply_arguments (more_terms argument rest) head head_type =
      fail_value host fuel head_type not_a_function

  abbrev pub missing_field : Value → String → Elaborates Typed
  missing_field head_type label = fail_value host fuel head_type λ t. field_not_found t label

  abbrev pub lookup_or_missing : Core.Term → Value → String → Option Value → Elaborates Typed
  lookup_or_missing head head_type label (some field_type) =
      pure (Core.Term.struct_elim head label, field_type)
  lookup_or_missing head head_type label none = missing_field head_type label

  abbrev pub lookup_field : Core.Term → Value → String → Option FieldDeclarations → Elaborates Typed
  lookup_field head head_type label none = missing_field head_type label
  lookup_field head head_type label (some declarations) = do
    head_value ← eval fuel head
    field_type ← reads λ c.
        get_field_type (Eval.eval fuel c.globals c.item_definitions) declarations head_value label
    lookup_or_missing head head_type label field_type

  abbrev pub lookup_typed : Typed → String → Elaborates Typed
  lookup_typed (head, Value.error) label = pure error_typed
  lookup_typed (head, head_type) label = do
    declarations ← force_field_declarations head_type
    lookup_field head head_type label declarations

  abbrev pub conditional_or_differ : Core.Term → Typed → Typed → Bool → Elaborates Typed
  conditional_or_differ head (if_true, if_true_type) (if_false, if_false_type) true =
      pure (Core.Term.bool_elim head if_true if_false, if_true_type)
  conditional_or_differ head (if_true, if_true_type) (if_false, if_false_type) false = do
    expected_type ← read_back_to_surface host.display fuel if_true_type
    found_type ← read_back_to_surface host.display fuel if_false_type
    fail (type_mismatch expected_type found_type)

  -- `synth_type`
  unfoldable pub synth_term : Term → Elaborates Typed
  unfolding synth_name elaborate_type apply_arguments rule
  synth_term (Term.name name) = synth_name fuel name
  synth_term (Term.ann term type') = do
    (core_type, _) ← elaborate_type type'
    annotate_or_error term core_type
  synth_term Term.kind_type = fail term_has_no_type
  synth_term Term.type_type = pure (Core.Term.sort type, Value.sort kind)
  synth_term (Term.function_type param_type body_type) = do
    param ← elaborate_type param_type
    body ← elaborate_type body_type
    pure (function_or_error param body)
  synth_term (Term.function_elim head arguments) = do
    (core_head, head_type) ← synth_type head
    apply_arguments arguments core_head head_type
  synth_term (Term.struct_term _) = fail ambiguous_struct_term
  synth_term (Term.struct_elim head label) = do typed ← synth_type head; lookup_typed typed label
  synth_term (Term.sequence_term _) = fail ambiguous_sequence_term
  synth_term (Term.number_literal _) = fail ambiguous_numeric_literal
  synth_term (Term.if_term head if_true if_false) = do
    core_head ← check_type head (global_value "Bool")
    true_typed ← synth_type if_true
    false_typed ← synth_type if_false
    equal ← is_equal fuel true_typed.1 false_typed.1
    conditional_or_differ core_head true_typed false_typed equal
  synth_term (Term.match_term _ _) = fail ambiguous_match_expression
  synth_term Term.format_type = pure (Core.Term.format_type, Value.sort kind)
  synth_term Term.repr =
      pure (Core.Term.repr, Value.function_type Value.format_type (Value.sort type))
  synth_term Term.error = pure error_typed
