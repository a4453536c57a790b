-- ===== src/Surface/Elaborate/Structs.antt =====
-- fathom/src/pass/surface_to_core.rs: the arm of `check_type` for struct terms.
use ddl.Prelude.{ℕ, String, List, [], ◌∷◌, ◌++◌, Option, some, none}
use ddl.Prelude.Maps.{insert_entry, remove_entry}
use ddl.Outcome.{Outcome, ok}
use ddl.Outcome as Outcomes
use ddl.Core.Term as Core
use ddl.Core.Term.{get_entry}
use ddl.Core.Semantics.Value.{Value}
use ddl.Core.Semantics.Eval
use ddl.Core.Semantics.Fields.{FieldDeclarations, OnField, for_each_field}
use ddl.Surface.Term.{Term, FieldDefinitions, no_fields, field}
use ddl.Surface.Elaborate.Message.{
  SurfaceToCoreMessage, surface_to_core, duplicate_struct_fields, missing_struct_fields,
  unexpected_struct_fields, unexpected_struct_term,
}
use ddl.Surface.Elaborate.Context.{
  Context, Elaborates, ◌>>=◌, ◌>>◌, pure, push_message, force_field_declarations, eval,
}
use ddl.Surface.Elaborate.Host.{Host, reject_value}

-- The initial pass over the fields: the first definition of each label is pending, and the labels of
-- the others are duplicates.
unfoldable pub collect_definitions :
    FieldDefinitions → List (String × Term) → List String → List (String × Term) × List String
collect_definitions no_fields pending duplicates = (pending, duplicates)
collect_definitions (field label term rest) pending duplicates = elim (get_entry pending label) [
  | none ↦ collect_definitions rest (insert_entry label term pending) duplicates
  | some _ ↦ collect_definitions rest pending (duplicates ++ (label ∷ []))
]

abbrev pub pending_labels : List (String × Term) → List String
pending_labels [] = []
pending_labels ((label, _) ∷ rest) = label ∷ pending_labels rest

-- `Vec<core::FieldDefinition>`
abbrev pub to_definitions : List (String × Core.Term) → Core.FieldDefinitions
to_definitions [] = Core.FieldDefinitions.no_fields
to_definitions ((label, term) ∷ rest) = Core.FieldDefinitions.field label term (to_definitions rest)

-- What the callback of `for_each_field` changes.
pub record StructState : Type 0 where
  pub pending : List (String × Term)
  pub elaborated : List (String × Core.Term)
  pub missing : List String
  pub context : Context

abbrev pub report_labels :
    List String → (List String → SurfaceToCoreMessage) → Elaborates (Unit {0})
report_labels [] message = pure tt
report_labels (label ∷ labels) message = push_message (surface_to_core (message (label ∷ labels)))

-- `has_problems`
abbrev pub unless_problems :
    List String → List String → List String → Core.Term → Elaborates Core.Term
unless_problems [] [] [] term = pure term
unless_problems _ _ _ term = pure Core.Term.error

module _ (host : Host) (fuel : ℕ) (check_type : Term → Value → Elaborates Core.Term) where
  abbrev pub elaborate_pending :
      String → Option Term → Option Value → StructState → Outcome ⊥ (Value × StructState)
  elaborate_pending label (some term) (some type') s =
      Outcomes.◌>>=◌ (check_type term type' s.context) λ checked.
        Outcomes.◌>>=◌ (eval fuel checked.0 checked.1) λ evaluated. ok (
          evaluated.0,
          record s {
            elaborated = s.elaborated ++ ((label, checked.0) ∷ []);
            context = evaluated.1;
          },
        )
  elaborate_pending label (some term) none s = ok (Value.error, s)
  elaborate_pending label none _ s =
      ok (Value.error, record s { missing = s.missing ++ (label ∷ []) })

  -- The callback: the definition of the label is no longer pending.
  abbrev pub elaborate_field : OnField StructState
  elaborate_field label type' s =
      elaborate_pending label (get_entry s.pending label) type'
        (record s { pending = remove_entry label s.pending })

  abbrev pub report_problems :
      List String → List String → List String → Core.Term → Elaborates Core.Term
  report_problems duplicates missing unexpected term = do
    report_labels duplicates duplicate_struct_fields
    report_labels missing missing_struct_fields
    report_labels unexpected unexpected_struct_fields
    unless_problems duplicates missing unexpected term

  abbrev pub finish_struct : List String → StructState → Outcome ⊥ (Core.Term × Context)
  finish_struct duplicates s =
      report_problems duplicates s.missing (pending_labels s.pending)
        (Core.Term.struct_term (to_definitions s.elaborated)) s.context

  abbrev pub elaborate_declared :
      List (String × Term) → List String → FieldDeclarations → Elaborates Core.Term
  elaborate_declared pending duplicates declarations c =
      Outcomes.◌>>=◌
        (for_each_field (Eval.eval fuel c.globals c.item_definitions) declarations elaborate_field
          (record { pending = pending; elaborated = []; missing = []; context = c }))
        (finish_struct duplicates)

  abbrev pub elaborate_definitions :
      FieldDefinitions → Value → Option FieldDeclarations → Elaborates Core.Term
  elaborate_definitions definitions expected none =
      reject_value host fuel expected unexpected_struct_term
  elaborate_definitions definitions expected (some declarations) =
      let (pending, duplicates) = collect_definitions definitions [] [] in
      elaborate_declared pending duplicates declarations

  unfoldable pub elaborate_struct_term : FieldDefinitions → Value → Elaborates Core.Term
  unfolding for_each_field collect_definitions
  elaborate_struct_term definitions expected = do
    declarations ← force_field_declarations expected
    elaborate_definitions definitions expected declarations
