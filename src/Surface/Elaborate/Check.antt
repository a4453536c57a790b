-- ===== src/Surface/Elaborate/Check.antt =====
-- fathom/src/pass/surface_to_core.rs: the body of `check_type`.
use text.Mathlib.Text.{◌==◌ as str_eq}
use ddl.Prelude.{ℕ, suc, String, Bool, true, false, Option, some, none, if◌then◌else◌}
use ddl.Location.{generated}
use ddl.Literal.Parse.{Parses, number_to_big_int}
use ddl.Literal.Float.{number_to_float}
use ddl.Core.Term as Core
use ddl.Core.Term.{Primitive}
use ddl.Core.Semantics.Value.{Head, Value, stuck, no_elims, global_value}
use ddl.Core.Typing.Terms.{array_type, has_length}
use ddl.Surface.Term.{Term, Terms, no_terms, more_terms}
use ddl.Surface.Elaborate.Message.{
  type_mismatch, mismatched_array_length, unexpected_sequence_term, numeric_literal_not_supported,
}
use ddl.Surface.Elaborate.Context.{Elaborates, ◌>>=◌, pure, is_equal, read_back_to_surface}
use ddl.Surface.Elaborate.Host.{Host, Typed, parses, reject, reject_value}
use ddl.Surface.Elaborate.Structs.{elaborate_struct_term}
use ddl.Surface.Elaborate.Match.{match_head}

-- `surface_elem_terms.len()`
unfoldable pub count_elems : Terms → ℕ
count_elems no_terms = 0
count_elems (more_terms t ts) = suc (count_elems ts)

-- `.map(primitive).map_or(Error, Primitive)`
abbrev pub primitive_or_error : {A : Type 0} → (A → Primitive) → Option A → Core.Term
primitive_or_error primitive none = Core.Term.error
primitive_or_error primitive (some value) = Core.Term.primitive (primitive value)

-- A literal that is refused has left a message.
unfoldable pub elaborate_literal : {A : Type 0} → (A → Primitive) → Parses A → Elaborates Core.Term
unfolding parses
elaborate_literal primitive parse = do
  value ← parses parse
  pure (primitive_or_error primitive value)

module _ (host : Host) (fuel : ℕ) (synth_type : Term → Elaborates Typed)
    (check_type : Term → Value → Elaborates Core.Term) where
  unfoldable pub elaborate_elems : Terms → Value → Elaborates Core.Terms
  elaborate_elems no_terms elem_type = pure Core.Terms.no_terms
  elaborate_elems (more_terms term rest) elem_type = do
    elem ← check_type term elem_type
    elems ← elaborate_elems rest elem_type
    pure (Core.Terms.more_terms elem elems)

  abbrev pub array_or_mismatch : ℕ → Core.Terms → Value → Bool → Elaborates Core.Term
  array_or_mismatch count elems len true = pure (Core.Term.array_term elems)
  array_or_mismatch count elems len false =
      reject_value host fuel len (mismatched_array_length count)

  abbrev pub elaborate_sequence : Terms → Value → Option (Value × Value) → Elaborates Core.Term
  elaborate_sequence elems expected none = reject_value host fuel expected unexpected_sequence_term
  elaborate_sequence elems expected (some (len, elem_type)) = do
    core_elems ← elaborate_elems elems elem_type
    array_or_mismatch (count_elems elems) core_elems len (has_length len (count_elems elems))

  abbrev pub number_named : String → String → Value → Elaborates Core.Term
  number_named name source expected =
      if str_eq name "Int"
      then elaborate_literal Primitive.int
          (number_to_big_int generated host.lexers (host.lexer source))
      else if str_eq name "F32"
      then elaborate_literal (λ x. Primitive.f32 (host.f32_bits x))
          (number_to_float generated host.f32_floats host.lexers (host.lexer source))
      else if str_eq name "F64"
      then elaborate_literal (λ x. Primitive.f64 (host.f64_bits x))
          (number_to_float generated host.f64_floats host.lexers (host.lexer source))
      else reject_value host fuel expected numeric_literal_not_supported

  -- By the expected type.
  abbrev pub elaborate_number : String → Value → Elaborates Core.Term
  elaborate_number source (stuck (Head.global name) no_elims) =
      number_named name source (stuck (Head.global name) no_elims)
  elaborate_number source expected = reject_value host fuel expected numeric_literal_not_supported

  -- The types differ: two values are read back for the message.
  abbrev pub differ : Value → Value → Elaborates Core.Term
  differ expected found = do
    expected_type ← read_back_to_surface host.display fuel expected
    found_type ← read_back_to_surface host.display fuel found
    reject (type_mismatch expected_type found_type)

  abbrev pub equal_or_differ : Core.Term → Value → Value → Bool → Elaborates Core.Term
  equal_or_differ term expected found true = pure term
  equal_or_differ term expected found false = differ expected found

  -- The last arm of `check_type`.
  unfoldable pub elaborate_synth : Term → Value → Elaborates Core.Term
  elaborate_synth term expected = do
    (core_term, found) ← synth_type term
    equal ← is_equal fuel found expected
    equal_or_differ core_term expected found equal

  -- The other arms, for an expected type that is no error.
  unfoldable pub elaborate_data : Term → Value → Elaborates Core.Term
  unfolding elaborate_struct_term elaborate_elems elaborate_synth count_elems elaborate_literal
  elaborate_data Term.error expected = pure Core.Term.error
  elaborate_data (Term.struct_term fields) expected =
      elaborate_struct_term host fuel check_type fields expected
  elaborate_data (Term.sequence_term elems) expected =
      elaborate_sequence elems expected (array_type expected)
  elaborate_data (Term.number_literal source) expected = elaborate_number source expected
  elaborate_data (Term.if_term head if_true if_false) expected = do
    core_head ← check_type head (global_value "Bool")
    core_if_true ← check_type if_true expected
    core_if_false ← check_type if_false expected
    pure (Core.Term.bool_elim core_head core_if_true core_if_false)
  elaborate_data (Term.match_term head arms) expected = do
    typed ← synth_type head
    match_head host fuel check_type typed arms expected
  elaborate_data term expected = elaborate_synth term expected

  abbrev pub unless_error_type : Value → Elaborates Core.Term → Elaborates Core.Term
  unless_error_type Value.error m = pure Core.Term.error
  unless_error_type _ m = m

  -- `check_type`
  unfoldable pub check_term : Term → Value → Elaborates Core.Term
  unfolding elaborate_data
  check_term term expected = unless_error_type expected (elaborate_data term expected)
