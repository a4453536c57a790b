-- ===== src/Core/Typing/Terms/Check.antt =====
-- fathom/src/lang/core/typing.rs: the body of `check_type`.
use text.Mathlib.Text.{◌==◌ as str_eq}
use ddl.Prelude.{ℕ, suc, Bool, true, false, Option, some, none, if◌then◌else◌}
use ddl.Prelude.Int.{pos, eq_ℤ}
use ddl.Core.Term.{Term, Terms, Branches, Primitive, no_terms, more_terms, no_branches, branch}
use ddl.Core.Semantics.Value.{Head, Value, stuck, no_elims, more_elims, function, global_value}
use ddl.Core.Typing.Message.{type_mismatch, unexpected_array_term}
use ddl.Core.Typing.Context.{Checks, ◌>>=◌, ◌>>◌, pure, push_message, read_back, is_equal}
use ddl.Core.Typing.Terms.Structs.{check_struct_term}

-- The parameters of a stuck `Array`.
abbrev pub array_type : Value → Option (Value × Value)
array_type
      (stuck
        (Head.global name)
        (more_elims (function len) (more_elims (function elem_type) no_elims))) =
    if str_eq name "Array" then some (len, elem_type) else none
array_type _ = none

abbrev pub array_value : Value → Value → Value
array_value len elem_type =
    stuck (Head.global "Array")
      (more_elims (function len) (more_elims (function elem_type) no_elims))

-- `elem_terms.len()`
unfoldable pub count_terms : Terms → ℕ
count_terms no_terms = 0
count_terms (more_terms t ts) = suc (count_terms ts)

abbrev pub has_length : Value → ℕ → Bool
has_length (Value.primitive (Primitive.int len)) n = eq_ℤ len (pos n)
has_length _ n = false

module _ (fuel : ℕ) (synth_type : Term → Checks Value)
    (check_type : Term → Value → Checks (Unit {0})) where
  unfoldable pub check_elems : Terms → Value → Checks (Unit {0})
  check_elems no_terms elem_type = pure tt
  check_elems (more_terms term rest) elem_type =
      check_type term elem_type >> check_elems rest elem_type

  unfoldable pub mismatch : Value → Value → Checks (Unit {0})
  mismatch expected found = do
    expected_type ← read_back fuel expected
    found_type ← read_back fuel found
    push_message (type_mismatch expected_type found_type)

  abbrev pub check_length : Terms → Value → Value → Bool → Checks (Unit {0})
  check_length elems expected elem_type true = pure tt
  check_length elems expected elem_type false =
      mismatch expected
        (array_value (Value.primitive (Primitive.int (pos (count_terms elems)))) elem_type)

  abbrev pub check_array : Terms → Value → Option (Value × Value) → Checks (Unit {0})
  check_array elems expected none = do
    expected_type ← read_back fuel expected
    push_message (unexpected_array_term expected_type)
  check_array elems expected (some (len, elem_type)) = do
    check_elems elems elem_type
    check_length elems expected elem_type (has_length len (count_terms elems))

  unfoldable pub check_branches : Branches → Value → Checks (Unit {0})
  check_branches no_branches expected = pure tt
  check_branches (branch _ term rest) expected =
      check_type term expected >> check_branches rest expected

  abbrev pub check_equal : Value → Value → Bool → Checks (Unit {0})
  check_equal expected found true = pure tt
  check_equal expected found false = mismatch expected found

  -- The last arm of `check_type`.
  unfoldable pub check_synth : Term → Value → Checks (Unit {0})
  unfolding mismatch
  check_synth term expected = do
    found ← synth_type term
    equal ← is_equal fuel found expected
    check_equal expected found equal

  -- The other arms, for an expected type that is no error.
  unfoldable pub check_data : Term → Value → Checks (Unit {0})
  unfolding check_struct_term check_elems check_branches check_synth count_terms
  check_data Term.error expected = pure tt
  check_data (Term.struct_term fields) expected =
      check_struct_term fuel synth_type check_type fields expected
  check_data (Term.array_term elems) expected = check_array elems expected (array_type expected)
  check_data (Term.bool_elim head if_true if_false) expected = do
    check_type head (global_value "Bool")
    check_type if_true expected
    check_type if_false expected
  check_data (Term.int_elim head branches default) expected = do
    check_type head (global_value "Int")
    check_branches branches expected
    check_type default expected
  check_data term expected = check_synth term expected

  abbrev pub unless_error : Value → Checks (Unit {0}) → Checks (Unit {0})
  unless_error Value.error m = pure tt
  unless_error _ m = m

  -- `check_type`
  unfoldable pub check_term : Term → Value → Checks (Unit {0})
  unfolding check_data
  check_term term expected = unless_error expected (check_data term expected)
