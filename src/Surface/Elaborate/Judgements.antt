-- ===== src/Surface/Elaborate/Judgements.antt =====
-- fathom/src/pass/surface_to_core.rs: `synth_type`, `check_type`, `is_type` and structs.
use text.Mathlib.Text.{◌==◌ as str_eq}
use ddl.Prelude.{
  ℕ, zero, suc, String, List, [], ◌∷◌, ◌++◌, Bool, true, false, length, if◌then◌else◌,
}
use ddl.Outcome.{ok, timeout}
use ddl.Core.Term as Core
use ddl.Core.Term.{Sort, type, get_entry}
use ddl.Core.Semantics.Value.{Value, ItemData}
use ddl.Core.Semantics.Elimination.{repr}
use ddl.Core.Typing.Judgements.{Params}
use ddl.Surface.Term.{Term, FieldDeclaration, StructType}
use ddl.Surface.Elaborate.Message.{surface_to_core, field_redeclaration}
use ddl.Surface.Elaborate.Context.{
  Elaborates, ◌>>=◌, ◌>>◌, pure, reads, size, push_local_param, truncate_locals, push_message, eval,
}
use ddl.Surface.Elaborate.Host.{Host, Typed}
use ddl.Surface.Elaborate.Check.{check_term}
use ddl.Surface.Elaborate.Synth.{Sorted, elaborate_type, synth_term}

-- The name of an item, its core term, its definition and its type.
abbrev pub Elaborated : Type 0
Elaborated = String × Core.Item × ItemData × Value

module _ (host : Host) where
  -- Each call spends one unit of fuel, which it shares with the functions on values.
  unfoldable mutual
    pub synth_type : ℕ → Term → Elaborates Typed
    synth_type zero term c = timeout
    synth_type (suc fuel) term c = synth_term host fuel (synth_type fuel) (check_type fuel) term c

    pub check_type : ℕ → Term → Value → Elaborates Core.Term
    check_type zero term expected c = timeout
    check_type (suc fuel) term expected c =
        check_term host fuel (synth_type fuel) (check_type fuel) term expected c

module _ (host : Host) (fuel : ℕ) where
  unfoldable pub is_type : Term → Elaborates Sorted
  unfolding elaborate_type
  is_type = elaborate_type host fuel (synth_type host fuel) (check_type host fuel)

  unfoldable pub elaborate_params : List (String × Term) → Elaborates Params
  unfolding is_type
  elaborate_params [] = pure []
  elaborate_params ((name, param_type) ∷ rest) = do
    (core_type, _) ← is_type param_type
    params ← elaborate_params rest
    pure ((name, core_type) ∷ params)

  unfoldable pub push_params : Params → Elaborates (Unit {0})
  push_params [] = pure tt
  push_params ((name, param_type) ∷ rest) = do
    param_value ← eval fuel param_type
    _ ← push_local_param name param_value
    push_params rest

  abbrev pub is_seen : String → List String → Bool
  is_seen label [] = false
  is_seen label (label' ∷ rest) = if str_eq label' label then true else is_seen label rest

  -- A field whose label was seen is reported, and left out.
  abbrev pub declare_field :
      (Value → Value)
      → FieldDeclaration
      → Core.Term
      → Bool
      → Elaborates (List Core.FieldDeclaration)
  declare_field host_type declaration core_type true = do
    push_message (surface_to_core (field_redeclaration declaration.label))
    pure []
  declare_field host_type declaration core_type false = do
    field_type ← eval fuel core_type
    _ ← push_local_param declaration.label (host_type field_type)
    pure (record { doc = declaration.doc; label = declaration.label; type_ = core_type } ∷ [])

  -- The loop over the fields. `host_type` gives the type of the field's value.
  unfoldable pub elaborate_declarations :
      Value
      → (Value → Value)
      → List FieldDeclaration
      → List String
      → Elaborates (List Core.FieldDeclaration)
  elaborate_declarations expected host_type [] seen = pure []
  elaborate_declarations expected host_type (declaration ∷ rest) seen = do
    core_type ← check_type host fuel declaration.type_ expected
    declared ← declare_field host_type declaration core_type (is_seen declaration.label seen)
    later ← elaborate_declarations expected host_type rest (declaration.label ∷ seen)
    pure (declared ++ later)

  -- The type of the item, from the last parameter to the first.
  unfoldable pub return_type : Params → Value → Elaborates Value
  return_type [] type' = pure type'
  return_type ((_, param_type) ∷ params) type' = do
    body_type ← return_type params type'
    param_value ← eval fuel param_type
    pure (Value.function_type param_value body_type)

  -- What `is_struct_type` and `is_struct_format` share: they differ in the type of the fields and in
  -- the type of their values.
  unfoldable pub elaborate_struct :
      Value
      → (Value → Value)
      → StructType
      → Elaborates (Params × List Core.FieldDeclaration × Value)
  unfolding elaborate_params push_params elaborate_declarations return_type
  elaborate_struct expected host_type struct_type = do
    initial_size ← reads λ c. ok (size c)
    params ← elaborate_params struct_type.params
    push_params params
    fields ← elaborate_declarations expected host_type struct_type.fields []
    truncate_locals initial_size
    result ← return_type params expected
    pure (params, fields, result)

  unfoldable pub is_struct_type : StructType → Elaborates Elaborated
  unfolding elaborate_struct
  is_struct_type t = do
    (params, fields, result) ← elaborate_struct (Value.sort type) (λ field_type. field_type) t
    pure (
      t.name,
      Core.Item.struct_type
          (record { doc = t.doc; name = t.name; params = params; fields = fields }),
      ItemData.struct_type (length params) fields,
      result,
    )

  unfoldable pub is_struct_format : StructType → Elaborates Elaborated
  unfolding elaborate_struct
  is_struct_format t = do
    (params, fields, result) ← elaborate_struct Value.format_type repr t
    pure (
      t.name,
      Core.Item.struct_format
          (record { doc = t.doc; name = t.name; params = params; fields = fields }),
      ItemData.struct_format (length params) fields,
      result,
    )
