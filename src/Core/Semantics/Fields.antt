-- ===== src/Core/Semantics/Fields.antt =====
-- fathom/src/lang/core/semantics.rs: the field declarations of a struct whose parameters are given,
-- and how they are gone through.
pub mod Types
pub mod Keeps
pub mod Fuel
pub mod Insert
use text.Mathlib.Text.{◌==◌ as str_eq}
use ddl.Prelude.{
  ℕ, zero, suc, String, List, [], ◌∷◌, ◌++◌, Bool, true, false, Option, none, some, if◌then◌else◌,
  ◌≡◌, refl, ◌∙◌, sym, ap, Bool-cases, inl, inr, arith,
}
use ddl.Outcome.{Outcome, ok, err, panic, timeout, explicit_panic, ◌>>=◌}
use ddl.Core.Term.{FieldDeclaration, get_entry}
use ddl.Core.Locals.{Locals}
use ddl.Core.Locals
use ddl.Core.Semantics.Value.{
  Head, Value, Elims, no_elims, more_elims, function, stuck, ItemData, struct_type, struct_format,
  constant,
}
use ddl.Core.Semantics.Elimination.{Evaluator, repr, struct_elim}

pub record FieldDeclarations : Type 0 where
  pub is_format : Bool
  pub locals : Locals Value
  pub fields : List FieldDeclaration

-- `elims.get(..arity)`
abbrev pub get_elims : ℕ → Elims → Option Elims
get_elims zero elims = some no_elims
get_elims (suc arity) no_elims = none
get_elims (suc arity) (more_elims elim' rest) = elim (get_elims arity rest) [
  | none ↦ none
  | some elims ↦ some (more_elims elim' elims)
]

-- The arguments are pushed one after the other.
unfoldable pub push_elims : Elims → Locals Value → Outcome ⊥ (Locals Value)
push_elims no_elims locals = ok locals
push_elims (more_elims (function argument) rest) locals =
    push_elims rest (Locals.push locals argument)
push_elims (more_elims _ rest) locals = panic explicit_panic

unfoldable pub declarations_of :
    Bool → List FieldDeclaration → Option Elims → Outcome ⊥ (Option FieldDeclarations)
declarations_of is_format fields none = ok none
declarations_of is_format fields (some elims) = do
  locals ← push_elims elims Locals.new
  ok (some (record { is_format = is_format; locals = locals; fields = fields }))

unfoldable pub try_field_declarations : ItemData → Elims → Outcome ⊥ (Option FieldDeclarations)
unfolding declarations_of
try_field_declarations (struct_type arity fields) elims =
    declarations_of false fields (get_elims arity elims)
try_field_declarations (struct_format arity fields) elims =
    declarations_of true fields (get_elims arity elims)
try_field_declarations (constant value) elims = ok none

-- The type of a field in a struct type, and of its host representation in a struct format.
abbrev pub host_type : Bool → Value → Value
host_type is_format type' = if is_format then repr type' else type'

-- A callback with its state: it gets the label, and the type unless an error was seen.
abbrev pub OnField : Type 0 → Type 0
OnField S = String → Option Value → S → Outcome ⊥ (Value × S)

module _ {S : Type 0} (eval : Evaluator) (is_format : Bool) (on_field : OnField S) where
  -- The fields after an error.
  unfoldable pub for_each_degraded : List FieldDeclaration → S → Outcome ⊥ S
  for_each_degraded [] s = ok s
  for_each_degraded (declaration ∷ rest) s = do
    result ← on_field declaration.label none s
    for_each_degraded rest result.1

  -- An error value of the callback is not pushed: the other fields are degraded.
  abbrev pub for_each_after : Outcome ⊥ S → Outcome ⊥ S → Value → Outcome ⊥ S
  for_each_after degraded next Value.error = degraded
  for_each_after degraded next value = next

  -- The fields before an error.
  unfoldable pub for_each_from : List FieldDeclaration → Locals Value → S → Outcome ⊥ S
  unfolding for_each_degraded
  for_each_from [] locals s = ok s
  for_each_from (declaration ∷ rest) locals s = do
    type' ← eval locals declaration.type_
    result ← on_field declaration.label (some (host_type is_format type')) s
    for_each_after (for_each_degraded rest result.1)
        (for_each_from rest (Locals.push locals result.0) result.1) result.0

unfoldable pub for_each_field :
    {S : Type 0} → Evaluator → FieldDeclarations → OnField S → S → Outcome ⊥ S
unfolding for_each_from
for_each_field eval declarations on_field s =
    for_each_from eval declarations.is_format on_field declarations.fields declarations.locals s

-- The loop of `get_field_type`: a field before the one that is looked for is taken from the head.
unfoldable pub field_type_from :
    Evaluator
    → Bool
    → Value
    → String
    → List FieldDeclaration
    → Locals Value
    → Outcome ⊥ (Option Value)
field_type_from eval is_format head label [] locals = ok none
field_type_from eval is_format head label (declaration ∷ rest) locals =
    let later =
      field_type_from eval is_format head label rest
        (Locals.push locals (struct_elim head declaration.label)) in
    if str_eq declaration.label label
    then (eval locals declaration.type_ >>= λ type'. ok (some (host_type is_format type')))
    else later

unfoldable pub get_field_type :
    Evaluator → FieldDeclarations → Value → String → Outcome ⊥ (Option Value)
unfolding field_type_from
get_field_type eval declarations head label =
    field_type_from eval declarations.is_format head label declarations.fields declarations.locals
