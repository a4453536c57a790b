-- ===== src/Core/Semantics/Elimination.antt =====
-- fathom/src/lang/core/semantics.rs: the eliminators, applied to values. `eval` is an argument
-- where an eliminator evaluates a term.
use text.Mathlib.Text.{◌==◌ as str_eq}
use ddl.Prelude.{String, Option, none, some, if◌then◌else◌}
use ddl.Outcome.{Outcome, ok}
use ddl.Core.Term.{Term, Branches, get_branch, Primitive}
use ddl.Core.Locals.{Locals}
use ddl.Core.Semantics.Value.{
  Head, Value, Elims, no_elims, more_elims, stuck, function, struct, bool, int, to_repr, push,
  get_field, global_value, capture,
}

-- The arms of `repr` for formats without parameters.
unfoldable pub repr_name : String → Value
repr_name name =
    if str_eq name "U8"
    then global_value "Int"
    else if str_eq name "U16Be"
    then global_value "Int"
    else if str_eq name "U16Le"
    then global_value "Int"
    else if str_eq name "U32Le"
    then global_value "Int"
    else if str_eq name "U32Be"
    then global_value "Int"
    else if str_eq name "U64Le"
    then global_value "Int"
    else if str_eq name "U64Be"
    then global_value "Int"
    else if str_eq name "S8"
    then global_value "Int"
    else if str_eq name "S16Le"
    then global_value "Int"
    else if str_eq name "S16Be"
    then global_value "Int"
    else if str_eq name "S32Le"
    then global_value "Int"
    else if str_eq name "S32Be"
    then global_value "Int"
    else if str_eq name "S64Le"
    then global_value "Int"
    else if str_eq name "S64Be"
    then global_value "Int"
    else if str_eq name "F32Le"
    then global_value "F32"
    else if str_eq name "F32Be"
    then global_value "F32"
    else if str_eq name "F64Le"
    then global_value "F64"
    else if str_eq name "F64Be"
    then global_value "F64"
    else if str_eq name "CurrentPos"
    then global_value "Pos"
    else Value.error

-- `repr`, and its arms for a stuck global.
unfoldable mutual
  pub repr : Value → Value
  repr (stuck (Head.global name) elims) = repr_global name elims
  repr (stuck head elims) = stuck head (push elims to_repr)
  repr _ = Value.error

  pub repr_global : String → Elims → Value
  repr_global name no_elims = repr_name name
  repr_global name (more_elims (function len) (more_elims (function elem_type) no_elims)) =
      let elem_repr = repr elem_type in
      if str_eq name "FormatArray"
      then stuck (Head.global "Array")
          (more_elims (function len) (more_elims (function elem_repr) no_elims))
      else Value.error
  repr_global name
        (more_elims (function _) (more_elims (function _) (more_elims (function _) no_elims))) =
      if str_eq name "Link" then global_value "Pos" else Value.error
  repr_global name _ = Value.error

unfoldable pub function_elim : Value → Value → Value
function_elim Value.repr argument = repr argument
function_elim (stuck head elims) argument = stuck head (push elims (function argument))
function_elim _ argument = Value.error

abbrev field_or_error : Option Value → Value
field_or_error none = Value.error
field_or_error (some value) = value

unfoldable pub struct_elim : Value → String → Value
struct_elim (Value.struct_term fields) name = field_or_error (get_field fields name)
struct_elim (stuck head elims) name = stuck head (push elims (struct name))
struct_elim _ name = Value.error

-- How terms are evaluated in a local environment.
abbrev pub Evaluator : Type 0
Evaluator = Locals Value → Term → Outcome ⊥ Value

-- The arms of `bool_elim` for a stuck global.
abbrev bool_elim_global : Evaluator → Locals Value → String → Elims → Term → Term → Outcome ⊥ Value
bool_elim_global eval locals name no_elims if_true if_false =
    if str_eq name "true"
    then eval locals if_true
    else if str_eq name "false"
    then eval locals if_false
    else ok Value.error
bool_elim_global eval locals name _ if_true if_false = ok Value.error

unfoldable pub bool_elim : Evaluator → Locals Value → Value → Term → Term → Outcome ⊥ Value
bool_elim eval locals (stuck (Head.global name) elims) if_true if_false =
    bool_elim_global eval locals name elims if_true if_false
bool_elim eval locals (stuck head elims) if_true if_false =
    ok (stuck head (push elims (bool (capture locals) if_true if_false)))
bool_elim eval locals _ if_true if_false = ok Value.error

abbrev pub branch_or_default : Evaluator → Locals Value → Option Term → Term → Outcome ⊥ Value
branch_or_default eval locals none default = eval locals default
branch_or_default eval locals (some term) default = eval locals term

unfoldable pub int_elim : Evaluator → Locals Value → Value → Branches → Term → Outcome ⊥ Value
int_elim eval locals (Value.primitive (Primitive.int value)) branches default =
    branch_or_default eval locals (get_branch branches value) default
int_elim eval locals (stuck head elims) branches default =
    ok (stuck head (push elims (int (capture locals) branches default)))
int_elim eval locals _ _ _ = ok Value.error
