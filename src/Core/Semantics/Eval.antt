-- ===== src/Core/Semantics/Eval.antt =====
-- fathom/src/lang/core/semantics.rs: `eval`.
pub mod Fuel
pub mod Total
use ddl.Prelude.{ℕ, zero, suc, String, Option, none, some}
use ddl.Outcome.{Outcome, ok, panic, timeout, unwrap_none, ◌>>=◌}
use ddl.Core.Term.{Term, Terms, FieldDefinitions, no_terms, more_terms, no_fields, field, get_entry}
use ddl.Core.Globals.{Globals}
use ddl.Core.Globals
use ddl.Core.Locals.{Locals, index_to_level}
use ddl.Core.Locals
use ddl.Core.Semantics.Value.{
  Value, Values, FieldValues, no_values, more_values, Items, ItemData, constant, struct_type,
  struct_format, insert, global_value, item_value, local_value,
}
use ddl.Core.Semantics.Elimination.{Evaluator, function_elim, struct_elim, bool_elim, int_elim}

abbrev pub unwrap {ℓ} : {A : Type ℓ} → Option A → Outcome ⊥ A
unwrap none = panic unwrap_none
unwrap (some a) = ok a

-- The items of an array in their order, and the fields of a struct, which go into a map one after
-- the other.
unfoldable pub eval_terms : Evaluator → Locals Value → Terms → Outcome ⊥ Values
eval_terms eval locals no_terms = ok no_values
eval_terms eval locals (more_terms term rest) = do
  value ← eval locals term
  values ← eval_terms eval locals rest
  ok (more_values value values)

unfoldable pub eval_fields :
    Evaluator → Locals Value → FieldDefinitions → FieldValues → Outcome ⊥ FieldValues
eval_fields eval locals no_fields fields = ok fields
eval_fields eval locals (field label term rest) fields = do
  value ← eval locals term
  eval_fields eval locals rest (insert label value fields)

abbrev eval_global :
    Evaluator → Locals Value → String → Option (Term × Option Term) → Outcome ⊥ Value
eval_global eval locals name none = ok Value.error
eval_global eval locals name (some (_, some term)) = eval locals term
eval_global eval locals name (some (_, none)) = ok (global_value name)

abbrev eval_item : String → Option ItemData → Outcome ⊥ Value
eval_item name none = ok Value.error
eval_item name (some (constant value)) = ok value
eval_item name (some (struct_type _ _)) = ok (item_value name)
eval_item name (some (struct_format _ _)) = ok (item_value name)

abbrev eval_local : Locals Value → ℕ → Option Value → Outcome ⊥ Value
eval_local locals index (some value) = ok value
eval_local locals index none = do
  level ← unwrap (index_to_level (Locals.size locals) index)
  ok (local_value level)

-- The body of `eval`, over the evaluator that its recursive calls go to.
unfoldable pub eval_term : Evaluator → Globals → Items → Evaluator
eval_term eval globals items locals (Term.global name) =
    eval_global eval locals name (Globals.get globals name)
eval_term eval globals items locals (Term.item name) = eval_item name (get_entry items name)
eval_term eval globals items locals (Term.local index) =
    eval_local locals index (Locals.get locals index)
eval_term eval globals items locals (Term.ann term _) = eval locals term
eval_term eval globals items locals (Term.sort sort) = ok (Value.sort sort)
eval_term eval globals items locals (Term.function_type param_type body_type) = do
  param_value ← eval locals param_type
  body_value ← eval locals body_type
  ok (Value.function_type param_value body_value)
eval_term eval globals items locals (Term.function_elim head argument) = do
  head_value ← eval locals head
  argument_value ← eval locals argument
  ok (function_elim head_value argument_value)
eval_term eval globals items locals (Term.struct_term field_definitions) = do
  fields ← eval_fields eval locals field_definitions FieldValues.no_fields
  ok (Value.struct_term fields)
eval_term eval globals items locals (Term.struct_elim head label) = do
  head_value ← eval locals head
  ok (struct_elim head_value label)
eval_term eval globals items locals (Term.array_term elem_terms) = do
  values ← eval_terms eval locals elem_terms
  ok (Value.array_term values)
eval_term eval globals items locals (Term.primitive primitive) = ok (Value.primitive primitive)
eval_term eval globals items locals (Term.bool_elim head if_true if_false) = do
  head_value ← eval locals head
  bool_elim eval locals head_value if_true if_false
eval_term eval globals items locals (Term.int_elim head branches default) = do
  head_value ← eval locals head
  int_elim eval locals head_value branches default
eval_term eval globals items locals Term.format_type = ok Value.format_type
eval_term eval globals items locals Term.repr = ok Value.repr
eval_term eval globals items locals Term.error = ok Value.error

-- Each call of `eval` spends one unit of fuel.
unfoldable pub eval : ℕ → Globals → Items → Evaluator
eval zero globals items locals term = timeout
eval (suc fuel) globals items locals term =
    eval_term (eval fuel globals items) globals items locals term
