-- ===== src/Core/Semantics/ReadBack.antt =====
-- fathom/src/lang/core/semantics.rs: `read_back`, and `normalize` as evaluation and read back.
use ddl.Prelude.{ℕ, zero, suc}
use ddl.Outcome.{Outcome, ok, timeout, ◌>>=◌}
use ddl.Core.Term.{
  Term, Terms, FieldDefinitions, Branches, no_terms, more_terms, no_branches, branch,
}
use ddl.Core.Globals.{Globals}
use ddl.Core.Locals.{Locals, level_to_index}
use ddl.Core.Locals
use ddl.Core.Semantics.Value.{
  Head, Value, Values, FieldValues, Elims, Elim, Items, stuck, no_elims, more_elims, function,
  struct, bool, int, to_repr, no_values, more_values, no_fields, field, release,
}
use ddl.Core.Semantics.Elimination.{Evaluator}
use ddl.Core.Semantics.Eval.{eval, unwrap}

-- How values are read back in an environment of a size.
abbrev pub Reader : Type 0
Reader = ℕ → Value → Outcome ⊥ Term

-- The body of `normalize`, over the functions that it calls.
unfoldable pub normalize_with : Evaluator → Reader → Locals Value → Term → Outcome ⊥ Term
normalize_with eval read_back locals term = do
  value ← eval locals term
  read_back (Locals.size locals) value

unfoldable pub read_back_head : ℕ → Head → Outcome ⊥ Term
read_back_head local_size (Head.global name) = ok (Term.global name)
read_back_head local_size (Head.item name) = ok (Term.item name)
read_back_head local_size (Head.local level) = do
  index ← unwrap (level_to_index local_size level)
  ok (Term.local index)
read_back_head local_size Head.error = ok Term.error

unfoldable pub read_back_branches :
    Evaluator → Reader → Locals Value → Branches → Outcome ⊥ Branches
read_back_branches eval read_back locals no_branches = ok no_branches
read_back_branches eval read_back locals (branch pattern' body rest) = do
  body' ← normalize_with eval read_back locals body
  rest' ← read_back_branches eval read_back locals rest
  ok (branch pattern' body' rest')

-- One step of the fold over the spine.
unfoldable pub read_back_elim : Evaluator → Reader → ℕ → Term → Elim → Outcome ⊥ Term
read_back_elim eval read_back local_size head (function argument) = do
  argument' ← read_back local_size argument
  ok (Term.function_elim head argument')
read_back_elim eval read_back local_size head (struct label) = ok (Term.struct_elim head label)
read_back_elim eval read_back local_size head (bool locals if_true if_false) = do
  if_true' ← normalize_with eval read_back (release locals) if_true
  if_false' ← normalize_with eval read_back (release locals) if_false
  ok (Term.bool_elim head if_true' if_false')
read_back_elim eval read_back local_size head (int locals branches' default) = do
  branches'' ← read_back_branches eval read_back (release locals) branches'
  default' ← normalize_with eval read_back (release locals) default
  ok (Term.int_elim head branches'' default')
read_back_elim eval read_back local_size head to_repr = ok (Term.function_elim Term.repr head)

unfoldable pub read_back_elims : Evaluator → Reader → ℕ → Term → Elims → Outcome ⊥ Term
read_back_elims eval read_back local_size head no_elims = ok head
read_back_elims eval read_back local_size head (more_elims elim' rest) = do
  head' ← read_back_elim eval read_back local_size head elim'
  read_back_elims eval read_back local_size head' rest

unfoldable pub read_back_neutral : Evaluator → Reader → ℕ → Head → Elims → Outcome ⊥ Term
read_back_neutral eval read_back local_size head elims = do
  head' ← read_back_head local_size head
  read_back_elims eval read_back local_size head' elims

unfoldable pub read_back_fields : Reader → ℕ → FieldValues → Outcome ⊥ FieldDefinitions
read_back_fields read_back local_size no_fields = ok FieldDefinitions.no_fields
read_back_fields read_back local_size (field label value rest) = do
  term ← read_back local_size value
  rest' ← read_back_fields read_back local_size rest
  ok (FieldDefinitions.field label term rest')

unfoldable pub read_back_values : Reader → ℕ → Values → Outcome ⊥ Terms
read_back_values read_back local_size no_values = ok no_terms
read_back_values read_back local_size (more_values value rest) = do
  term ← read_back local_size value
  rest' ← read_back_values read_back local_size rest
  ok (more_terms term rest')

-- The body of `read_back`, over the functions that it calls.
unfoldable pub read_back_value : Evaluator → Reader → Reader
read_back_value eval read_back local_size (stuck head elims) =
    read_back_neutral eval read_back local_size head elims
read_back_value eval read_back local_size (Value.sort sort) = ok (Term.sort sort)
read_back_value eval read_back local_size (Value.function_type param_type body_type) = do
  param_type' ← read_back local_size param_type
  body_type' ← read_back local_size body_type
  ok (Term.function_type param_type' body_type')
read_back_value eval read_back local_size (Value.struct_term fields) = do
  field_definitions ← read_back_fields read_back local_size fields
  ok (Term.struct_term field_definitions)
read_back_value eval read_back local_size (Value.array_term values) = do
  elem_terms ← read_back_values read_back local_size values
  ok (Term.array_term elem_terms)
read_back_value eval read_back local_size (Value.primitive primitive) =
    ok (Term.primitive primitive)
read_back_value eval read_back local_size Value.format_type = ok Term.format_type
read_back_value eval read_back local_size Value.repr = ok Term.repr
read_back_value eval read_back local_size Value.error = ok Term.error

-- Each call of `read_back` spends one unit of fuel, which it shares with `eval`.
unfoldable pub read_back : ℕ → Globals → Items → Reader
read_back zero globals items local_size value = timeout
read_back (suc fuel) globals items local_size value =
    read_back_value (eval fuel globals items) (read_back fuel globals items) local_size value

unfoldable pub normalize : ℕ → Globals → Items → Locals Value → Term → Outcome ⊥ Term
unfolding normalize_with
normalize fuel globals items =
    normalize_with (eval fuel globals items) (read_back fuel globals items)
