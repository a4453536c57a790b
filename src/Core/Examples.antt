-- ===== src/Core/Examples.antt =====
-- fathom/src/lang/core.rs, fathom/src/lang/core/semantics.rs and fathom/src/ieee754.rs: runs of the
-- evaluator and the comparisons on concrete input.
use ddl.Prelude.{
  ◌&&◌, true, String, ℕ, ◌≡◌, ◌≢◌, ◌↔◌, ◌≤◌, refl, List, [], ◌∷◌, true, some, none, arith,
}
use ddl.Prelude.Int.{pos}
use ddl.Outcome.{ok, panic, unwrap_none, explicit_panic}
use ddl.Location.{Range, file_range, merge, Covers, merge-Covers}
use ddl.Ieee754.{single, logical_eq, canonical, logical_eq_equivalence}
use ddl.Runtime.Number.{FloatBits}
use ddl.Core.Term.{Term, no_branches, branch, get_branch, get_entry}
use ddl.Core.Globals.{Globals, default}
use ddl.Core.Globals
use ddl.Core.Locals.{
  Locals, index_to_level, level_to_index, index_to_level_inverse, get-push, pop-push,
}
use ddl.Core.Locals
use ddl.Core.Semantics.Value.{
  Head, Value, Elims, stuck, no_elims, more_elims, function, struct, global_value, local_value,
  no_fields, field, push,
}
use ddl.Core.Semantics.Elimination.{struct_elim, function_elim, int_elim, repr, repr_name}
use ddl.Core.Semantics.Eval.{eval, eval_term}
use ddl.Core.Semantics.Eval.Total.{eval_total, eval-local_unbound, default-IsOpaque}
use ddl.Core.Semantics.Fields.{FieldDeclarations, for_each_field, get_field_type}
use ddl.Core.Semantics.Fields.Types.{list_type, get_field_type-for_each_field}
use ddl.Core.Semantics.Equal.{is_equal}
use ddl.Core.Semantics.Equal.Reflexive.{is_equal_refl}
use ddl.Core.Semantics.Equal.Lookup.{not-is_equal-HasStruct}
use ddl.Core.Binary.Read.{int_value}

abbrev float_of : ℕ → FloatBits
float_of n = record { to_bits = n }

-- Three NaNs.
logical_eq_equivalence_example :
    ((logical_eq single (float_of 0x7fc0_0000) (float_of 0xffc0_0000) ≡ true)
      ↔ (canonical single 0x7fc0_0000 ≡ canonical single 0xffc0_0000))
    × (logical_eq single (float_of 0x7fc0_0000) (float_of 0x7fc0_0000) ≡ true)
    × (logical_eq single (float_of 0x7fc0_0000) (float_of 0xffc0_0000)
        ≡ logical_eq single (float_of 0xffc0_0000) (float_of 0x7fc0_0000))
    × ((logical_eq single (float_of 0x7fc0_0000) (float_of 0xffc0_0000)
          && logical_eq single (float_of 0xffc0_0000) (float_of 0x7f80_0001)
          && logical_eq single (float_of 0x7fc0_0000) (float_of 0x7f80_0001))
        ≡ (logical_eq single (float_of 0x7fc0_0000) (float_of 0xffc0_0000)
            && logical_eq single (float_of 0xffc0_0000) (float_of 0x7f80_0001)))
logical_eq_equivalence_example =
    logical_eq_equivalence single (float_of 0x7fc0_0000) (float_of 0xffc0_0000)
      (float_of 0x7f80_0001)

nan_equal : logical_eq single (float_of 0x7fc0_0000) (float_of 0xffc0_0000) ≡ true
unfolding logical_eq
nan_equal = refl

index_to_level_inverse_example :
    ((index_to_level 3 0 ≡ some 2) ↔ (level_to_index 3 2 ≡ some 0))
    × ((index_to_level 3 0 ≡ none) ↔ (3 ≤ 0))
index_to_level_inverse_example = index_to_level_inverse 3 0 2

abbrev locals_2 : Locals Value
locals_2 = record { entries = int_value (pos 10) ∷ int_value (pos 20) ∷ [] }

get-push_example :
    (Locals.get (Locals.push locals_2 (int_value (pos 30))) 0 ≡ some (int_value (pos 30)))
    × (Locals.get (Locals.push locals_2 (int_value (pos 30))) 2 ≡ Locals.get locals_2 1)
get-push_example = get-push locals_2 (int_value (pos 30)) 1 (omega arith)

-- A choice by the newest local, with a struct in the branch that is taken.
abbrev choice : Term
choice =
    Term.int_elim (Term.local 0)
      (branch (pos 10) Term.error (branch (pos 20) (Term.local 1) no_branches)) Term.format_type

choice_value : eval 2 default [] locals_2 choice ≡ ok (int_value (pos 10))
unfolding eval eval_term Locals.get int_elim get_branch
choice_value = refl

eval_total_example : (v : Value) × (eval 2 default [] locals_2 choice ≡ ok v)
eval_total_example =
    eval_total default [] locals_2 2 choice default-IsOpaque (omega arith)
      (omega arith, (tt, (omega arith, tt)), tt) (omega arith)

eval-local_unbound_example : eval 4 default [] locals_2 (Term.local 2) ≡ panic unwrap_none
eval-local_unbound_example = eval-local_unbound default [] locals_2 3 2 (omega arith) (omega arith)

-- An array type whose length is a local, in a struct.
abbrev plain : Value
plain = Value.struct_term (
    field "x"
      (stuck (Head.global "Array") (
        more_elims (function (local_value 0))
          (more_elims (function (global_value "Int")) no_elims)))
      no_fields)

is_equal_refl_example : is_equal 3 default [] plain plain ≡ ok true
is_equal_refl_example = is_equal_refl default [] 3 plain (omega arith) ((tt, (tt, tt)), tt)

abbrev field_x : Elims
field_x = more_elims (struct "x") no_elims

not-is_equal-HasStruct_example :
    is_equal 5 default [] (stuck (Head.local 0) field_x) (stuck (Head.local 0) field_x) ≢ ok true
not-is_equal-HasStruct_example =
    not-is_equal-HasStruct default [] 5 (Head.local 0) (Head.local 0) field_x field_x tt

-- struct : Format { len : U8, items : FormatArray len U8 }
abbrev sized_fields : FieldDeclarations
sized_fields = record {
  is_format = true;
  locals = Locals.new;
  fields =
      record { doc = []; label = "len"; type_ = Term.global "U8" }
      ∷ record {
        doc = [];
        label = "items";
        type_ =
            Term.function_elim (Term.function_elim (Term.global "FormatArray") (Term.local 0))
              (Term.global "U8");
      }
      ∷ [];
}

-- The length of the array is the field of the head.
abbrev sized_types : List (String × Value)
sized_types =
    ("len", global_value "Int")
    ∷ (
      "items",
      stuck (Head.global "Array") (
          more_elims (function (stuck (Head.local 0) (more_elims (struct "len") no_elims)))
            (more_elims (function (global_value "Int")) no_elims)),
    )
    ∷ []

sized_listed :
    for_each_field (eval 4 default []) sized_fields (list_type (stuck (Head.local 0) no_elims)) []
    ≡ ok sized_types
unfolding for_each_field eval eval_term Globals.get default repr struct_elim function_elim push
    Locals.get Locals.push Locals.size index_to_level repr_name
sized_listed = refl

get_field_type-for_each_field_example :
    get_field_type (eval 4 default []) sized_fields (stuck (Head.local 0) no_elims) "items"
    ≡ ok (get_entry sized_types "items")
get_field_type-for_each_field_example =
    get_field_type-for_each_field (eval 4 default []) sized_fields (Head.local 0) no_elims "items"
      sized_types sized_listed

abbrev span_2_5 : Range
span_2_5 = record { start = 2; end = 5 }

abbrev span_7_9 : Range
span_7_9 = record { start = 7; end = 9 }

abbrev text_file : ℕ
text_file = 3

merge-Covers_example :
    (text_file ≡ text_file
      → (r : Range) × (merge (file_range text_file span_2_5) (file_range text_file span_7_9)
          ≡ ok (file_range text_file r))
        × ((c : Range) → Covers c r ↔ (Covers c span_2_5 × Covers c span_7_9)))
    × (text_file ≢ text_file
        → merge (file_range text_file span_2_5) (file_range text_file span_7_9)
          ≡ panic explicit_panic)
merge-Covers_example = merge-Covers text_file text_file span_2_5 span_7_9
