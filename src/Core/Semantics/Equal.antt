-- ===== src/Core/Semantics/Equal.antt =====
-- fathom/src/lang/core/semantics.rs: `is_equal`, which compares values up to computation.
pub mod Plain
pub mod Reflexive
pub mod Fuel
pub mod Lookup
use text.Mathlib.Text.{◌==◌ as str_eq}
use ddl.Prelude.{ℕ, zero, suc, ◌==◌, Bool, true, false, Option, some, if◌then◌else◌}
use ddl.Prelude.Int.{eq_ℤ}
use ddl.Outcome.{Outcome, ok, timeout, ◌>>=◌}
use ddl.Core.Term.{Branches, branch, count_branches, primitive_eq, sort_eq, Term}
use ddl.Core.Globals.{Globals}
use ddl.Core.Locals.{Locals}
use ddl.Core.Semantics.Value.{
  Head, Value, Values, FieldValues, Elims, Elim, Items, stuck, more_elims, function, bool, int,
  to_repr, no_values, more_values, no_fields, field, release, get_field, count_elims, count_fields,
}
use ddl.Core.Semantics.Elimination.{Evaluator}
use ddl.Core.Semantics.Eval.{eval}

abbrev pub Comparison : Type 0
Comparison = Value → Value → Outcome ⊥ Bool

-- `a && b`, where `b` runs only if `a` is true.
abbrev pub and_then : Outcome ⊥ Bool → Outcome ⊥ Bool → Outcome ⊥ Bool
and_then m n = m >>= λ b. if b then n else ok false

unfoldable pub is_equal_head : Head → Head → Bool
is_equal_head (Head.global name0) (Head.global name1) = str_eq name0 name1
is_equal_head (Head.item name0) (Head.item name1) = str_eq name0 name1
is_equal_head (Head.local level0) (Head.local level1) = level0 == level1
is_equal_head Head.error _ = true
is_equal_head _ Head.error = true
is_equal_head _ _ = false

-- Two terms are evaluated, each in its own environment, and compared.
unfoldable pub is_equal_closure :
    Evaluator → Comparison → Locals Value → Locals Value → Term → Term → Outcome ⊥ Bool
is_equal_closure eval is_equal locals0 locals1 term0 term1 = do
  value0 ← eval locals0 term0
  value1 ← eval locals1 term1
  is_equal value0 value1

-- The test of all pairs of branches, of which there are equally many.
unfoldable pub is_equal_branches :
    Evaluator → Comparison → Locals Value → Locals Value → Branches → Branches → Outcome ⊥ Bool
is_equal_branches eval is_equal locals0 locals1 (branch int0 body0 rest0)
      (branch int1 body1 rest1) =
    let rest = is_equal_branches eval is_equal locals0 locals1 rest0 rest1 in
    if eq_ℤ int0 int1
    then and_then (is_equal_closure eval is_equal locals0 locals1 body0 body1) rest
    else ok false
is_equal_branches eval is_equal locals0 locals1 _ _ = ok true

-- The arms of the loop over two spines: `true` goes on, `false` returns.
unfoldable pub is_equal_elim : Evaluator → Comparison → Elim → Elim → Outcome ⊥ Bool
is_equal_elim eval is_equal (function input0) (function input1) = is_equal input0 input1
is_equal_elim eval is_equal (bool locals0 if_true0 if_false0) (bool locals1 if_true1 if_false1) =
    and_then (is_equal_closure eval is_equal (release locals0) (release locals1) if_true0 if_true1)
      (is_equal_closure eval is_equal (release locals0) (release locals1) if_false0 if_false1)
is_equal_elim eval is_equal (int locals0 branches0 default0) (int locals1 branches1 default1) =
    if count_branches branches0 == count_branches branches1
    then and_then
        (is_equal_branches eval is_equal (release locals0) (release locals1) branches0 branches1)
        (is_equal_closure eval is_equal (release locals0) (release locals1) default0 default1)
    else ok false
is_equal_elim eval is_equal to_repr to_repr = ok true
is_equal_elim eval is_equal _ _ = ok false

unfoldable pub is_equal_elims : Evaluator → Comparison → Elims → Elims → Outcome ⊥ Bool
is_equal_elims eval is_equal (more_elims elim0 rest0) (more_elims elim1 rest1) =
    and_then (is_equal_elim eval is_equal elim0 elim1) (is_equal_elims eval is_equal rest0 rest1)
is_equal_elims eval is_equal _ _ = ok true

unfoldable pub is_equal_spine : Evaluator → Comparison → Elims → Elims → Outcome ⊥ Bool
is_equal_spine eval is_equal spine0 spine1 =
    if count_elims spine0 == count_elims spine1
    then is_equal_elims eval is_equal spine0 spine1
    else ok false

abbrev pub is_equal_found : Comparison → Option Value → Option Value → Outcome ⊥ Bool
is_equal_found is_equal (some value0) (some value1) = is_equal value0 value1
is_equal_found is_equal _ _ = ok false

-- `keys` are those fields of `fields0` that are still to be compared.
unfoldable pub is_equal_fields :
    Comparison → FieldValues → FieldValues → FieldValues → Outcome ⊥ Bool
is_equal_fields is_equal no_fields fields0 fields1 = ok true
is_equal_fields is_equal (field label _ keys) fields0 fields1 =
    and_then (is_equal_found is_equal (get_field fields1 label) (get_field fields0 label))
      (is_equal_fields is_equal keys fields0 fields1)

unfoldable pub count_values : Values → ℕ
count_values no_values = 0
count_values (more_values value rest) = suc (count_values rest)

unfoldable pub is_equal_values : Comparison → Values → Values → Outcome ⊥ Bool
is_equal_values is_equal (more_values value0 rest0) (more_values value1 rest1) =
    and_then (is_equal value0 value1) (is_equal_values is_equal rest0 rest1)
is_equal_values is_equal _ _ = ok true

-- The body of `is_equal`, over the functions that it calls.
unfoldable pub is_equal_value : Evaluator → Comparison → Comparison
is_equal_value eval is_equal (stuck head0 spine0) (stuck head1 spine1) =
    if is_equal_head head0 head1 then is_equal_spine eval is_equal spine0 spine1 else ok false
is_equal_value eval is_equal (Value.sort sort0) (Value.sort sort1) = ok (sort_eq sort0 sort1)
is_equal_value eval is_equal (Value.function_type param_type0 body_type0)
      (Value.function_type param_type1 body_type1) =
    and_then (is_equal param_type1 param_type0) (is_equal body_type0 body_type1)
is_equal_value eval is_equal (Value.struct_term fields0) (Value.struct_term fields1) =
    if count_fields fields0 == count_fields fields1
    then is_equal_fields is_equal fields0 fields0 fields1
    else ok false
is_equal_value eval is_equal (Value.array_term values0) (Value.array_term values1) =
    if count_values values0 == count_values values1
    then is_equal_values is_equal values0 values1
    else ok false
is_equal_value eval is_equal (Value.primitive primitive0) (Value.primitive primitive1) =
    ok (primitive_eq primitive0 primitive1)
is_equal_value eval is_equal Value.format_type Value.format_type = ok true
is_equal_value eval is_equal Value.repr Value.repr = ok true
is_equal_value eval is_equal Value.error _ = ok true
is_equal_value eval is_equal _ Value.error = ok true
is_equal_value eval is_equal _ _ = ok false

-- Each call of `is_equal` spends one unit of fuel, which it shares with `eval`.
unfoldable pub is_equal : ℕ → Globals → Items → Comparison
is_equal zero globals items value0 value1 = timeout
is_equal (suc fuel) globals items value0 value1 =
    is_equal_value (eval fuel globals items) (is_equal fuel globals items) value0 value1
