-- ===== src/Core/Semantics/Equal/Fuel.antt =====
-- fathom/src/lang/core/semantics.rs: the fuel of `is_equal` does not change what it returns.
use ddl.Prelude.{ℕ, zero, suc, ◌≤◌, ◌==◌, ◌≡◌, Bool, Option, none, some, arith}
use ddl.Prelude.Int.{eq_ℤ}
use ddl.Outcome.{Outcome, ok, ◌⊑◌, below, same, if-⊑, >>=-⊑, ⊑-ok}
use ddl.Core.Term.{Term, Branches, branch, no_branches, count_branches}
use ddl.Core.Globals.{Globals}
use ddl.Core.Locals.{Locals}
use ddl.Core.Semantics.Value.{
  Value, Values, FieldValues, Elims, Elim, Items, stuck, no_elims, more_elims, function, bool, int,
  no_values, more_values, no_fields, field, get_field, count_elims, count_fields, release,
}
use ddl.Core.Semantics.Elimination.{Evaluator}
use ddl.Core.Semantics.Eval.{eval}
use ddl.Core.Semantics.Eval.Fuel.{eval-⊑}
use ddl.Core.Semantics.Equal.{
  Comparison, and_then, is_equal_head, is_equal_closure, is_equal_branches, is_equal_elim,
  is_equal_elims, is_equal_spine, is_equal_found, is_equal_fields, count_values, is_equal_values,
  is_equal_value, is_equal,
}

and_then-⊑ : {m m' n n' : Outcome ⊥ Bool} → m ⊑ m' → n ⊑ n' → and_then m n ⊑ and_then m' n'
and_then-⊑ p q = >>=-⊑ p λ b. if-⊑ b q same

module _ (ev ev' : Evaluator) (eq eq' : Comparison)
    (he : (locals : Locals Value) (term : Term) → ev locals term ⊑ ev' locals term)
    (hq : (v w : Value) → eq v w ⊑ eq' v w) where
  closure-⊑ :
      (l l' : Locals Value) (t u : Term)
      → is_equal_closure ev eq l l' t u ⊑ is_equal_closure ev' eq' l l' t u
  unfolding is_equal_closure
  closure-⊑ l l' t u = >>=-⊑ (he l t) λ v. >>=-⊑ (he l' u) λ w. hq v w

  branches-⊑ :
      (l l' : Locals Value) (bs cs : Branches)
      → is_equal_branches ev eq l l' bs cs ⊑ is_equal_branches ev' eq' l l' bs cs
  unfolding is_equal_branches
  branches-⊑ l l' (branch i t bs) (branch j u cs) =
      if-⊑ (eq_ℤ i j) (and_then-⊑ (closure-⊑ l l' t u) (branches-⊑ l l' bs cs)) same
  branches-⊑ l l' no_branches cs = same
  branches-⊑ l l' bs no_branches = same

  elim-⊑ : (e e' : Elim) → is_equal_elim ev eq e e' ⊑ is_equal_elim ev' eq' e e'
  unfolding is_equal_elim
  elim-⊑ (function v) (function w) = hq v w
  elim-⊑ (bool l t u) (bool l' t' u') =
      and_then-⊑ (closure-⊑ (release l) (release l') t t') (closure-⊑ (release l) (release l') u u')
  elim-⊑ (int l bs t) (int l' cs u) =
      if-⊑ (count_branches bs == count_branches cs)
        (and_then-⊑ (branches-⊑ (release l) (release l') bs cs)
          (closure-⊑ (release l) (release l') t u))
        same
  elim-⊑ _ _ = same

  elims-⊑ : (es es' : Elims) → is_equal_elims ev eq es es' ⊑ is_equal_elims ev' eq' es es'
  unfolding is_equal_elims
  elims-⊑ (more_elims e es) (more_elims e' es') = and_then-⊑ (elim-⊑ e e') (elims-⊑ es es')
  elims-⊑ no_elims es' = same
  elims-⊑ es no_elims = same

  spine-⊑ : (es es' : Elims) → is_equal_spine ev eq es es' ⊑ is_equal_spine ev' eq' es es'
  unfolding is_equal_spine
  spine-⊑ es es' = if-⊑ (count_elims es == count_elims es') (elims-⊑ es es') same

  found-⊑ : (o o' : Option Value) → is_equal_found eq o o' ⊑ is_equal_found eq' o o'
  found-⊑ (some v) (some w) = hq v w
  found-⊑ none o' = same
  found-⊑ o none = same

  fields-⊑ :
      (keys fs gs : FieldValues) → is_equal_fields eq keys fs gs ⊑ is_equal_fields eq' keys fs gs
  unfolding is_equal_fields
  fields-⊑ no_fields fs gs = same
  fields-⊑ (field label v keys) fs gs =
      and_then-⊑ (found-⊑ (get_field gs label) (get_field fs label)) (fields-⊑ keys fs gs)

  values-⊑ : (vs ws : Values) → is_equal_values eq vs ws ⊑ is_equal_values eq' vs ws
  unfolding is_equal_values
  values-⊑ (more_values v vs) (more_values w ws) = and_then-⊑ (hq v w) (values-⊑ vs ws)
  values-⊑ no_values ws = same
  values-⊑ vs no_values = same

  value-⊑ : (v w : Value) → is_equal_value ev eq v w ⊑ is_equal_value ev' eq' v w
  unfolding is_equal_value
  value-⊑ (stuck h es) (stuck h' es') = if-⊑ (is_equal_head h h') (spine-⊑ es es') same
  value-⊑ (Value.function_type v w) (Value.function_type v' w') = and_then-⊑ (hq v' v) (hq w w')
  value-⊑ (Value.struct_term fs) (Value.struct_term gs) =
      if-⊑ (count_fields fs == count_fields gs) (fields-⊑ fs fs gs) same
  value-⊑ (Value.array_term vs) (Value.array_term ws) =
      if-⊑ (count_values vs == count_values ws) (values-⊑ vs ws) same
  value-⊑ _ _ = same

module _ (globals : Globals) (items : Items) where
  is_equal-⊑ :
      (f g : ℕ)
      → f ≤ g
      → (v w : Value) → is_equal f globals items v w ⊑ is_equal g globals items v w
  unfolding is_equal
  is_equal-⊑ zero g h v w = below
  is_equal-⊑ (suc f) zero h v w = absurd (omega arith)
  is_equal-⊑ (suc f) (suc g) h v w =
      value-⊑ (eval f globals items) (eval g globals items) (is_equal f globals items)
        (is_equal g globals items) (eval-⊑ globals items f g (omega arith))
        (is_equal-⊑ f g (omega arith)) v w

  -- More fuel does not change how two values compare.
  pub is_equal_mono :
      (f g : ℕ) (v w : Value) (b : Bool)
      → f ≤ g
      → is_equal f globals items v w ≡ ok b
      → is_equal g globals items v w ≡ ok b
  is_equal_mono f g v w b h e = ⊑-ok (is_equal-⊑ f g h v w) e
