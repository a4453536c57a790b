-- ===== src/Core/Typing/Judgements.antt =====
-- fathom/src/lang/core/typing.rs: `synth_sort`, `check_type`, `synth_type` and `is_module`.
use text.Mathlib.Text.{◌==◌ as str_eq}
use ddl.Prelude.{
  ℕ, zero, suc, String, List, [], ◌∷◌, Bool, true, false, Option, some, none, length, if◌then◌else◌,
}
use ddl.Outcome.{ok, timeout}
use ddl.Core.Term.{Term, Sort, FieldDeclaration, Item, Module, get_entry}
use ddl.Core.Semantics.Value.{Value, ItemData}
use ddl.Core.Semantics.Elimination.{repr}
use ddl.Core.Typing.Message.{field_redeclaration, item_redefinition}
use ddl.Core.Typing.Context.{
  Checks, ◌>>=◌, ◌>>◌, pure, reads, size, push_local_param, truncate_locals, push_message, eval,
}
use ddl.Core.Typing.Terms.{sort_of, check_term, synth_term}

-- Each call spends one unit of fuel, which it shares with the functions on values.
unfoldable mutual
  pub synth_type : ℕ → Term → Checks Value
  synth_type zero term c = timeout
  synth_type (suc fuel) term c = synth_term fuel (synth_type fuel) (check_type fuel) term c

  pub check_type : ℕ → Term → Value → Checks (Unit {0})
  check_type zero term expected c = timeout
  check_type (suc fuel) term expected c =
      check_term fuel (synth_type fuel) (check_type fuel) term expected c

unfoldable pub synth_sort : ℕ → Term → Checks (Option Sort)
unfolding sort_of
synth_sort fuel = sort_of fuel (synth_type fuel) (check_type fuel)

abbrev pub Params : Type 0
Params = List (String × Term)

unfoldable pub synth_params : ℕ → Params → Checks (Unit {0})
synth_params fuel [] = pure tt
synth_params fuel ((_, param_type) ∷ params) = do
  _ ← synth_sort fuel param_type
  synth_params fuel params

unfoldable pub push_params : ℕ → Params → Checks (Unit {0})
push_params fuel [] = pure tt
push_params fuel ((_, param_type) ∷ params) = do
  param_value ← eval fuel param_type
  _ ← push_local_param param_value
  push_params fuel params

abbrev pub is_seen : String → List String → Bool
is_seen label [] = false
is_seen label (label' ∷ rest) = if str_eq label' label then true else is_seen label rest

-- The end of the loop over the fields: a label that was seen is reported, and another is pushed.
abbrev pub declare_field : String → Value → Bool → Checks (Unit {0})
declare_field label field_type true = push_message (field_redeclaration label)
declare_field label field_type false = do _ ← push_local_param field_type; pure tt

-- The loop over the fields. `host` gives the type of the field's value.
unfoldable pub check_declarations :
    ℕ → Value → (Value → Value) → List FieldDeclaration → List String → Checks (Unit {0})
check_declarations fuel expected host [] seen = pure tt
check_declarations fuel expected host (declaration ∷ rest) seen = do
  check_type fuel declaration.type_ expected
  field_type ← eval fuel declaration.type_
  declare_field declaration.label (host field_type) (is_seen declaration.label seen)
  check_declarations fuel expected host rest (declaration.label ∷ seen)

-- The type of the item, from the last parameter to the first.
unfoldable pub return_type : ℕ → Params → Value → Checks Value
return_type fuel [] type' = pure type'
return_type fuel ((_, param_type) ∷ params) type' = do
  body_type ← return_type fuel params type'
  param_value ← eval fuel param_type
  pure (Value.function_type param_value body_type)

-- The arms for struct types and for struct formats, which differ in the type of the fields and in
-- the type of their values.
unfoldable pub check_struct :
    ℕ → Value → (Value → Value) → Params → List FieldDeclaration → Checks Value
unfolding synth_params push_params check_declarations return_type
check_struct fuel expected host params declarations = do
  initial_size ← reads λ c. ok (size c)
  synth_params fuel params
  push_params fuel params
  check_declarations fuel expected host declarations []
  truncate_locals initial_size
  return_type fuel params expected

unfoldable pub check_item : ℕ → Item → Checks (String × ItemData × Value)
unfolding check_struct
check_item fuel (Item.constant c) = do
  type' ← synth_type fuel c.term
  value ← eval fuel c.term
  pure (c.name, ItemData.constant value, type')
check_item fuel (Item.struct_type t) = do
  type' ← check_struct fuel (Value.sort Sort.type) (λ field_type. field_type) t.params t.fields
  pure (t.name, ItemData.struct_type (length t.params) t.fields, type')
check_item fuel (Item.struct_format t) = do
  type' ← check_struct fuel Value.format_type repr t.params t.fields
  pure (t.name, ItemData.struct_format (length t.params) t.fields, type')

-- A name that is taken is reported, and keeps its first definition.
abbrev pub define_found : String × ItemData × Value → Option ItemData → Checks (Unit {0})
define_found (name, item, type') none c = ok (
  tt,
  record c {
    item_declarations = (name, type') ∷ c.item_declarations;
    item_definitions = (name, item) ∷ c.item_definitions;
  },
)
define_found (name, item, type') (some _) c = push_message (item_redefinition name) c

unfoldable pub define_item : String × ItemData × Value → Checks (Unit {0})
define_item entry c = define_found entry (get_entry c.item_definitions entry.0) c

unfoldable pub check_items : ℕ → List Item → Checks (Unit {0})
unfolding check_item define_item
check_items fuel [] = pure tt
check_items fuel (item ∷ rest) = do
  entry ← check_item fuel item
  define_item entry
  check_items fuel rest

unfoldable pub clear_items : Checks (Unit {0})
clear_items c = ok (tt, record c { item_declarations = []; item_definitions = [] })

unfoldable pub is_module : ℕ → Module → Checks (Unit {0})
unfolding check_items clear_items
is_module fuel m = do check_items fuel m.items; clear_items
