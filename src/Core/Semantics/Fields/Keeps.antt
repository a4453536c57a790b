-- ===== src/Core/Semantics/Fields/Keeps.antt =====
-- fathom/src/lang/core/semantics.rs: an invariant of the callback is one of `for_each_field`.
use ddl.Prelude.{String, List, [], ◌∷◌, Option, some, Bool}
use ddl.Outcome.{Outcome}
use ddl.Outcome.Post.{Ends, returns, Ends-bind, Ends-any}
use ddl.Core.Term.{FieldDeclaration}
use ddl.Core.Locals.{Locals}
use ddl.Core.Locals
use ddl.Core.Semantics.Value.{Value}
use ddl.Core.Semantics.Elimination.{Evaluator}
use ddl.Core.Semantics.Fields.{
  FieldDeclarations, OnField, host_type, for_each_degraded, for_each_after, for_each_from,
  for_each_field,
}

module _ {S : Type 0} (P : S → Type 0) (eval : Evaluator) (on_field : OnField S)
    (keeps : (label : String) (type' : Option Value) (s : S)
      → P s
      → Ends (λ r. P r.1) (on_field label type' s)) where
  degraded-Ends :
      (is_format : Bool) (fields : List FieldDeclaration) (s : S)
      → P s
      → Ends P (for_each_degraded eval is_format on_field fields s)
  unfolding for_each_degraded
  degraded-Ends is_format [] s h = returns h
  degraded-Ends is_format (d ∷ rest) s h =
      Ends-bind (keeps d.label _ s h) λ r k. degraded-Ends is_format rest r.1 k

  after-Ends :
      (is_format : Bool) (m n : Outcome ⊥ S) (v : Value)
      → Ends P m
      → Ends P n
      → Ends P (for_each_after eval is_format on_field m n v)
  after-Ends is_format m n Value.error p q = p
  after-Ends is_format m n _ p q = q

  from-Ends :
      (is_format : Bool) (fields : List FieldDeclaration) (locals : Locals Value) (s : S)
      → P s
      → Ends P (for_each_from eval is_format on_field fields locals s)
  unfolding for_each_from
  from-Ends is_format [] locals s h = returns h
  from-Ends is_format (d ∷ rest) locals s h =
      Ends-bind (Ends-any {P = λ _. Unit {0}} (eval locals d.type_) (λ _. tt)) λ ty _.
        Ends-bind (keeps d.label (some (host_type is_format ty)) s h) λ r k.
          after-Ends is_format _ _ r.0 (degraded-Ends is_format rest r.1 k)
            (from-Ends is_format rest (Locals.push locals r.0) r.1 k)

  pub for_each_field-Ends :
      (declarations : FieldDeclarations) (s : S)
      → P s
      → Ends P (for_each_field eval declarations on_field s)
  unfolding for_each_field
  for_each_field-Ends declarations s h =
      from-Ends declarations.is_format declarations.fields declarations.locals s h
