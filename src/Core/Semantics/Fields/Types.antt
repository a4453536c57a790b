-- ===== src/Core/Semantics/Fields/Types.antt =====
-- fathom/src/lang/core/semantics.rs: `for_each_field` and `get_field_type` see the same types.
use text.Mathlib.Text.{◌==◌ as str_eq}
use ddl.Prelude.{
  String, List, [], ◌∷◌, ◌++◌, Bool, Option, none, some, if◌then◌else◌, ◌≡◌, refl, ◌∙◌, sym, ap,
  Bool-cases, inl, inr, arith,
}
use ddl.Outcome.{ok, ok-after}
use ddl.Core.Term.{FieldDeclaration, get_entry}
use ddl.Core.Locals.{Locals}
use ddl.Core.Semantics.Value.{Head, Value, Elims, stuck}
use ddl.Core.Semantics.Elimination.{Evaluator, struct_elim}
use ddl.Core.Semantics.Fields.{
  FieldDeclarations, OnField, host_type, for_each_from, for_each_field, field_type_from,
  get_field_type,
}

-- A callback that lists the types of the fields, and gives each field the value that the head has
-- there.
abbrev pub list_type : Value → OnField (List (String × Value))
list_type head label (some type') s = ok (struct_elim head label, s ++ ((label, type') ∷ []))
list_type head label none s = ok (Value.error, s)

abbrev or_else : Option Value → Option Value → Option Value
or_else none b = b
or_else (some v) b = some v

get_entry-snoc :
    (s : List (String × Value)) (key label : String) (v : Value)
    → get_entry (s ++ ((key, v) ∷ [])) label
      ≡ or_else (get_entry s label) (if str_eq key label then some v else none)
get_entry-snoc [] key label v = refl
get_entry-snoc ((k, w) ∷ s) key label v = elim (Bool-cases (str_eq k label)) [
  | inl hit ↦ rw hit
  | inr miss ↦ rw miss (get_entry-snoc s key label v)
]

or_else-found :
    (a x : Option Value) (v : Value) → or_else (or_else a (some v)) x ≡ or_else a (some v)
or_else-found none x v = refl
or_else-found (some w) x v = refl

or_else-none : (a x : Option Value) → or_else (or_else a none) x ≡ or_else a x
or_else-none none x = refl
or_else-none (some w) x = refl

or_else-end : (a : Option Value) → a ≡ or_else a none
or_else-end none = refl
or_else-end (some w) = refl

module _ (eval : Evaluator) (is_format : Bool) (head : Head) (es : Elims) (label : String) where
  -- The field types from some field on, after those that are listed.
  abbrev Agree :
      List FieldDeclaration → Locals Value → List (String × Value) → List (String × Value) → Type 0
  Agree fields locals s types =
      (found : Option Value) × (field_type_from eval is_format (stuck head es) label fields locals
        ≡ ok found)
      × (get_entry types label ≡ or_else (get_entry s label) found)

  from-Agree :
      (fields : List FieldDeclaration) (locals : Locals Value) (s types : List (String × Value))
      → for_each_from eval is_format (list_type (stuck head es)) fields locals s ≡ ok types
      → Agree fields locals s types
  unfolding for_each_from field_type_from struct_elim
  from-Agree [] locals s types e = (none, refl, ground (arith, or_else-end (get_entry s label)))
  from-Agree (d ∷ rest) locals s types e =
      let (ty, q, e') = ok-after (eval locals d.type_) _ e in
      let (found, r, listed) = from-Agree rest _ _ types e' in
      let snoc = get_entry-snoc s d.label label (host_type is_format ty) in
      elim (Bool-cases (str_eq d.label label)) [
        | inl hit ↦ (
          some (host_type is_format ty),
          rw (hit, q),
          listed ∙ rw (snoc, hit) (or_else-found (get_entry s label) found _),
        )
        | inr miss ↦
            (found, rw miss r, listed ∙ rw (snoc, miss) (or_else-none (get_entry s label) found))
      ]

-- With a stuck head, if `for_each_field` with a callback that lists the types, and gives each field
-- the value that the head has there, ends in a list, then `get_field_type` finds for every label the
-- first type that the list has for it, and none exactly if it has none.
pub get_field_type-for_each_field :
    (eval : Evaluator) (declarations : FieldDeclarations) (head : Head) (es : Elims)
    (label : String) (types : List (String × Value))
    → for_each_field eval declarations (list_type (stuck head es)) [] ≡ ok types
    → get_field_type eval declarations (stuck head es) label ≡ ok (get_entry types label)
unfolding for_each_field get_field_type
get_field_type-for_each_field eval declarations head es label types e =
    let (found, r, listed) =
      from-Agree eval declarations.is_format head es label declarations.fields declarations.locals
        [] types e in
    r ∙ ap (λ (x : Option Value). ok x) (sym listed)
