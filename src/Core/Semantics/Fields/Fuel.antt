-- ===== src/Core/Semantics/Fields/Fuel.antt =====
-- fathom/src/lang/core/semantics.rs: the fuel of evaluation does not change the type of a field.
use text.Mathlib.Text.{◌==◌ as str_eq}
use ddl.Prelude.{ℕ, ◌≤◌, ◌≡◌, String, List, [], ◌∷◌, Bool, Option}
use ddl.Outcome.{ok, ◌⊑◌, same, if-⊑, >>=-⊑, ⊑-ok}
use ddl.Core.Term.{Term, FieldDeclaration}
use ddl.Core.Globals.{Globals}
use ddl.Core.Locals.{Locals}
use ddl.Core.Locals
use ddl.Core.Semantics.Value.{Value, Items}
use ddl.Core.Semantics.Elimination.{Evaluator, struct_elim}
use ddl.Core.Semantics.Eval.{eval}
use ddl.Core.Semantics.Eval.Fuel.{eval-⊑}
use ddl.Core.Semantics.Fields.{FieldDeclarations, field_type_from, get_field_type}

module _ (ev ev' : Evaluator)
    (h : (locals : Locals Value) (term : Term) → ev locals term ⊑ ev' locals term) where
  field_type_from-⊑ :
      (is_format : Bool) (v : Value) (label : String) (ds : List FieldDeclaration)
      (locals : Locals Value)
      → field_type_from ev is_format v label ds locals
        ⊑ field_type_from ev' is_format v label ds locals
  unfolding field_type_from
  field_type_from-⊑ is_format v label [] locals = same
  field_type_from-⊑ is_format v label (d ∷ ds) locals =
      if-⊑ (str_eq d.label label) (>>=-⊑ (h locals d.type_) λ t. same)
        (field_type_from-⊑ is_format v label ds (Locals.push locals (struct_elim v d.label)))

-- More fuel does not change the type of a field.
pub get_field_type_mono :
    (globals : Globals) (items : Items) (f g : ℕ) (d : FieldDeclarations) (v : Value)
    (label : String) (o : Option Value)
    → f ≤ g
    → get_field_type (eval f globals items) d v label ≡ ok o
    → get_field_type (eval g globals items) d v label ≡ ok o
unfolding get_field_type
get_field_type_mono globals items f g d v label o h e =
    ⊑-ok
      (field_type_from-⊑ (eval f globals items) (eval g globals items) (eval-⊑ globals items f g h)
        d.is_format v label d.fields d.locals)
      e
