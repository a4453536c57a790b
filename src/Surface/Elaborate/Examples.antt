-- ===== src/Surface/Elaborate/Examples.antt =====
-- fathom/src/pass/surface_to_core.rs: names and terms that are elaborated.
use ddl.Prelude.{[], ◌∷◌, ◌≡◌, refl, arith, some}
use ddl.Prelude.Int.{pos}
use ddl.Core.Term as Core
use ddl.Core.Term.{Primitive, Sort, type}
use ddl.Core.Locals.{Locals, index_to_level}
use ddl.Core.Locals
use ddl.Surface.Term.{Term}
use ddl.Surface.Distill.{Display, from_term}
use ddl.Core.Globals.{default}
use ddl.Core.Semantics.Value.{Value, global_value, local_value}
use ddl.Outcome.{ok}
use ddl.Surface.Elaborate.Context.{Context, get_local, eval}
use ddl.Surface.Elaborate.Names.{get_local-from_term}
use ddl.Surface.Elaborate.Resolve.{synth_name, IsNamed, synth_name-IsNamed}
use ddl.Core.Globals
use ddl.Core.Semantics.Eval
use ddl.Core.Semantics.Eval.{eval_term}
use ddl.Prelude.{ℕ, ◌+◌, ◌-◌, ◌*◌, ◌/◌, ◌^◌, List, Option, none}
use ddl.Literal.Token.{NumericLiteral, Lexers}
use ddl.Literal.Float.{Floats}
use ddl.Literal.Parse.{
  parse_digits, add_digit, expect_token, expect_numeric_literal_start, number_to_big_int,
}
use ddl.Runtime.Number.{from_bits}
use ddl.Surface.Term.{Pattern, no_arms, arm}
use ddl.Core.Typing.Derives.{HasType, IsAccepted}
use ddl.Core.Semantics.Equal
use ddl.Core.Semantics.Elimination.{repr, repr_name}
use ddl.Core.Semantics.Equal.{is_equal_value, is_equal_head, is_equal_spine, is_equal_elims}
use ddl.Core.Semantics.Value.{count_elims}
use ddl.Surface.Elaborate.Context.{is_equal}
use ddl.Surface.Elaborate.Host.{Host, parses}
use ddl.Surface.Elaborate.Match.{from_int_branches}
use ddl.Surface.Elaborate.Check.{elaborate_synth, elaborate_data, check_term}
use ddl.Surface.Elaborate.Synth.{synth_term, elaborate_type}
use ddl.Surface.Elaborate.Judgements.{synth_type, check_type}
use ddl.Surface.Elaborate.Sound.{core_context}
use ddl.Surface.Elaborate.Sound.Modules.{ModulePost, elaborate_module-is_module}
use ddl.Surface.Elaborate.Context.{new, push_local, push_local_param, truncate_locals}
use ddl.Surface.Elaborate.Judgements.{
  elaborate_struct, is_struct_format, is_type, elaborate_params, push_params,
  elaborate_declarations, return_type,
}
use ddl.Surface.Elaborate.Synth.{apply_arguments}
use ddl.Surface.Elaborate.Items.{elaborate_module, elaborate_items, elaborate_item, clear_items}
use ddl.Surface.Term.{Item, Module, no_terms, more_terms}
use ddl.Surface.Elaborate.Sound.Terms.{synth_type-HasType, check_type-IsAccepted}

abbrev zeros : Display
zeros = record { int_to_string = λ _. "0"; f32_to_string = λ _. "0.0"; f64_to_string = λ _. "0.0" }

-- Two locals of the same name, the newest a Boolean.
abbrev shadowed : Context
shadowed = record {
  globals = default;
  item_declarations = [];
  item_definitions = [];
  local_declarations =
      ("n", global_value "Int") ∷ ("m", global_value "Int") ∷ ("n", global_value "Bool") ∷ [];
  local_definitions = record { entries = local_value 0 ∷ local_value 1 ∷ local_value 2 ∷ [] };
  core_to_surface = record { entries = "n" ∷ "m" ∷ "n" ∷ [] };
  messages = [];
}

newest_found : get_local shadowed "n" ≡ some (global_value "Bool", 0)
unfolding get_local
newest_found = refl

older_found : get_local shadowed "m" ≡ some (global_value "Int", 1)
unfolding get_local
older_found = refl

-- A global that no local and no item hides.
int_synthesized :
    synth_name 2 "Int" shadowed ≡ ok ((Core.Term.global "Int", Value.sort type), shadowed)
unfolding synth_name get_local eval Eval.eval eval_term Globals.get default
int_synthesized = refl

m_synthesized : synth_name 2 "m" shadowed ≡ ok ((Core.Term.local 1, global_value "Int"), shadowed)
unfolding synth_name get_local
m_synthesized = refl

synth_name-IsNamed_example :
    IsNamed zeros 2 "m" shadowed ((Core.Term.local 1, global_value "Int"), shadowed)
synth_name-IsNamed_example =
    synth_name-IsNamed zeros 2 "m" shadowed (Core.Term.local 1) (global_value "Int") shadowed
      (refl, omega arith) m_synthesized

newest_named : Locals.get shadowed.core_to_surface 0 ≡ some "n"
unfolding Locals.get Locals.size index_to_level
newest_named = refl

get_local-from_term_example :
    (from_term zeros shadowed.core_to_surface (Core.Term.local 0) ≡ Term.name "n")
    × ((t : Value) × (get_local shadowed "n" ≡ some (t, 0)))
get_local-from_term_example =
    get_local-from_term zeros shadowed (refl, omega arith) "n" 0 newest_named
      λ newer h. absurd (omega arith)

abbrev next_token : List NumericLiteral → Option NumericLiteral × List NumericLiteral
next_token [] = (none, [])
next_token (token ∷ rest) = (some token, rest)

-- Every literal is the digit 0.
abbrev zero_lexers : Lexers
zero_lexers = record {
  Lexer = List NumericLiteral;
  next = next_token;
  span = λ _. record { start = 0; end = 1 };
  morph36 = λ _. record { tokens = []; end_span = record { start = 1; end = 1 } };
  morph10 = λ _. record { tokens = []; end_span = record { start = 1; end = 1 } };
}

abbrev floats_ℕ : Floats
floats_ℕ = record {
  Float = ℕ;
  zero_float = 0;
  add = λ x y. x + y;
  sub = λ x y. x - y;
  mul = λ x y. x * y;
  div = λ x y. x / y;
  powi = λ x n. x ^ n;
  from_u8 = λ n. n;
}

abbrev pub host : Host
host = record {
  display = zeros;
  lexers = zero_lexers;
  lexer = λ _. NumericLiteral.digit 0 ∷ [];
  f32_floats = floats_ℕ;
  f32_bits = λ x. from_bits x;
  f64_floats = floats_ℕ;
  f64_bits = λ x. from_bits x;
}

-- match m { 0 => n, k => if n { n } else { n } }
abbrev on_m : Term
on_m = Term.match_term (Term.name "m") (
    arm (Pattern.number_literal "0") (Term.name "n") (
      arm (Pattern.name "k") (Term.if_term (Term.name "n") (Term.name "n") (Term.name "n"))
        no_arms))

abbrev on_m_core : Core.Term
on_m_core =
    Core.Term.int_elim (Core.Term.local 1)
      (Core.Branches.branch (pos 0) (Core.Term.local 0) Core.Branches.no_branches)
      (Core.Term.bool_elim (Core.Term.local 0) (Core.Term.local 0) (Core.Term.local 0))

on_m_elaborated : check_type host 4 on_m (global_value "Bool") shadowed ≡ ok (on_m_core, shadowed)
unfolding check_type check_term elaborate_data elaborate_synth synth_term synth_name get_local
    is_equal from_int_branches parses number_to_big_int expect_numeric_literal_start expect_token
    parse_digits add_digit Equal.is_equal is_equal_value is_equal_head is_equal_spine is_equal_elims
    count_elims Core.get_branch
on_m_elaborated = refl

check_type-IsAccepted_example :
    IsAccepted (core_context shadowed) on_m_core (global_value "Bool")
    × (core_context shadowed ≡ core_context shadowed)
check_type-IsAccepted_example =
    check_type-IsAccepted host 4 shadowed shadowed on_m on_m_core (global_value "Bool")
      (refl, omega arith) ((tt, tt), (tt, ((tt, (tt, tt)), tt))) on_m_elaborated

-- if n { (m : Int) } else { m }
abbrev by_n : Term
by_n = Term.if_term (Term.name "n") (Term.ann (Term.name "m") (Term.name "Int")) (Term.name "m")

abbrev by_n_core : Core.Term
by_n_core =
    Core.Term.bool_elim (Core.Term.local 0)
      (Core.Term.ann (Core.Term.local 1) (Core.Term.global "Int")) (Core.Term.local 1)

by_n_elaborated : synth_type host 6 by_n shadowed ≡ ok ((by_n_core, global_value "Int"), shadowed)
unfolding synth_type check_term elaborate_data elaborate_synth synth_term elaborate_type synth_name
    get_local is_equal eval Equal.is_equal is_equal_value is_equal_head is_equal_spine
    is_equal_elims count_elims Eval.eval eval_term Globals.get default
by_n_elaborated = refl

synth_type-HasType_example :
    HasType (core_context shadowed) by_n_core (global_value "Int")
    × (core_context shadowed ≡ core_context shadowed)
synth_type-HasType_example =
    synth_type-HasType host 6 shadowed shadowed by_n by_n_core (global_value "Int")
      (refl, omega arith) (tt, ((tt, tt), tt)) by_n_elaborated

-- const count : Type = Int; struct Rows : Format { len : U8, cells : FormatArray len U8 }
abbrev rows : Module
rows = record {
  doc = [];
  items =
      Item.constant
        (record { doc = []; name = "Count"; type_ = some Term.type_type; term = Term.name "Int" })
      ∷ Item.struct_type (record {
        doc = [];
        name = "Rows";
        params = [];
        type_ = some Term.format_type;
        fields =
            record { doc = []; label = "len"; type_ = Term.name "U8" }
            ∷ record {
              doc = [];
              label = "cells";
              type_ =
                  Term.function_elim (Term.name "FormatArray")
                    (more_terms (Term.name "len") (more_terms (Term.name "U8") no_terms));
            }
            ∷ [];
      })
      ∷ [];
}

abbrev rows_core : Core.Module
rows_core = record {
  doc = [];
  items =
      Core.Item.constant (record {
        doc = [];
        name = "Count";
        term = Core.Term.ann (Core.Term.global "Int") (Core.Term.sort type);
      })
      ∷ Core.Item.struct_format (record {
        doc = [];
        name = "Rows";
        params = [];
        fields =
            record { doc = []; label = "len"; type_ = Core.Term.global "U8" }
            ∷ record {
              doc = [];
              label = "cells";
              type_ =
                  Core.Term.function_elim
                    (Core.Term.function_elim (Core.Term.global "FormatArray") (Core.Term.local 0))
                    (Core.Term.global "U8");
            }
            ∷ [];
      })
      ∷ [];
}

rows_elaborated : elaborate_module host 6 rows (new default) ≡ ok (rows_core, new default)
unfolding elaborate_module elaborate_items elaborate_item elaborate_struct is_struct_format is_type
    clear_items elaborate_params push_params elaborate_declarations return_type new push_local_param
    push_local truncate_locals synth_type check_term elaborate_data elaborate_synth synth_term
    elaborate_type apply_arguments synth_name get_local is_equal eval Equal.is_equal is_equal_value
    is_equal_head is_equal_spine is_equal_elims count_elims Eval.eval eval_term Globals.get default
    repr repr_name Locals.get Locals.push Locals.truncate
rows_elaborated = refl

elaborate_module-is_module_example : ModulePost (new default) (rows_core, new default)
unfolding new
elaborate_module-is_module_example =
    elaborate_module-is_module host 6 (new default) (new default) rows rows_core (refl, omega arith)
      (omega arith, tt) ((tt, tt), ((tt, (tt, (tt, ((tt, (tt, (tt, (tt, tt)))), tt)))), tt))
      rows_elaborated
