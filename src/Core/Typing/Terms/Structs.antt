-- ===== src/Core/Typing/Terms/Structs.antt =====
-- fathom/src/lang/core/typing.rs: the arm of `check_type` for struct terms.
use ddl.Prelude.{ℕ, String, List, [], ◌∷◌, ◌++◌, Option, some, none}
use ddl.Prelude.Maps.{insert_entry, remove_entry}
use ddl.Outcome.{Outcome, ok}
use ddl.Outcome as Outcomes
use ddl.Core.Term.{Term, FieldDefinitions, no_fields, field, get_entry}
use ddl.Core.Semantics.Value.{Value}
use ddl.Core.Semantics.Eval
use ddl.Core.Semantics.Fields.{FieldDeclarations, OnField, for_each_field}
use ddl.Core.Typing.Message.{
  CoreTypingMessage, duplicate_struct_fields, missing_struct_fields, unexpected_struct_fields,
  unexpected_struct_term,
}
use ddl.Core.Typing.Context.{
  Context, Checks, ◌>>=◌, ◌>>◌, pure, push_message, force_field_declarations, eval, read_back,
}

-- The initial pass over the fields of a struct term: the first definition of each label is pending,
-- and the labels of the others are duplicates.
unfoldable pub collect_fields :
    FieldDefinitions → List (String × Term) → List String → List (String × Term) × List String
collect_fields no_fields pending duplicates = (pending, duplicates)
collect_fields (field label term rest) pending duplicates = elim (get_entry pending label) [
  | none ↦ collect_fields rest (insert_entry label term pending) duplicates
  | some _ ↦ collect_fields rest pending (duplicates ++ (label ∷ []))
]

abbrev labels_of : List (String × Term) → List String
labels_of [] = []
labels_of ((label, _) ∷ rest) = label ∷ labels_of rest

abbrev pub unless_empty : List String → CoreTypingMessage → Checks (Unit {0})
unless_empty [] message = pure tt
unless_empty (_ ∷ _) message = push_message message

-- What the callback of `for_each_field` changes.
pub record StructCheck : Type 0 where
  pub pending : List (String × Term)
  pub missing : List String
  pub context : Context

module _ (fuel : ℕ) (synth_type : Term → Checks Value)
    (check_type : Term → Value → Checks (Unit {0})) where
  abbrev pub check_pending :
      String → Option Term → Option Value → StructCheck → Outcome ⊥ (Value × StructCheck)
  check_pending label (some term) (some type') s =
      Outcomes.◌>>=◌ ((check_type term type' >> eval fuel term) s.context)
        λ r. ok (r.0, record s { context = r.1 })
  check_pending label (some term) none s = ok (Value.error, s)
  check_pending label none _ s = ok (Value.error, record s { missing = s.missing ++ (label ∷ []) })

  -- The callback: the definition of the label is no longer pending.
  abbrev pub check_field : OnField StructCheck
  check_field label type' s =
      check_pending label (get_entry s.pending label) type'
        (record s { pending = remove_entry label s.pending })

  abbrev pub report_fields : List String → List String → List String → Checks (Unit {0})
  report_fields duplicates missing unexpected = do
    unless_empty duplicates (duplicate_struct_fields duplicates)
    unless_empty missing (missing_struct_fields missing)
    unless_empty unexpected (unexpected_struct_fields unexpected)

  abbrev pub check_declared :
      List (String × Term) → List String → FieldDeclarations → Checks (Unit {0})
  check_declared pending duplicates declarations c =
      Outcomes.◌>>=◌
        (for_each_field (Eval.eval fuel c.globals c.item_definitions) declarations check_field
          (record { pending = pending; missing = []; context = c }))
        λ s. report_fields duplicates s.missing (labels_of s.pending) s.context

  abbrev pub check_struct_fields :
      FieldDefinitions → Value → Option FieldDeclarations → Checks (Unit {0})
  check_struct_fields definitions expected none = do
    expected_type ← read_back fuel expected
    push_message (unexpected_struct_term expected_type)
  check_struct_fields definitions expected (some declarations) =
      let (pending, duplicates) = collect_fields definitions [] [] in
      check_declared pending duplicates declarations

  unfoldable pub check_struct_term : FieldDefinitions → Value → Checks (Unit {0})
  unfolding for_each_field collect_fields
  check_struct_term fields expected = do
    declarations ← force_field_declarations expected
    check_struct_fields fields expected declarations
