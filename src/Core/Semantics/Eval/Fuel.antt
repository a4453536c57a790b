-- ===== src/Core/Semantics/Eval/Fuel.antt =====
-- fathom/src/lang/core/semantics.rs: the fuel of `eval` does not change what it returns.
use ddl.Prelude.{ℕ, String, zero, suc, ◌≤◌, ◌≡◌, Option, none, some, arith}
use ddl.Outcome.{ok, ◌⊑◌, below, same, if-⊑, >>=-⊑, ⊑-ok}
use text.Mathlib.Text.{◌==◌ as str_eq}
use ddl.Core.Term.{
  Term, Terms, FieldDefinitions, Branches, Primitive, no_terms, more_terms, no_fields, field,
  get_branch,
}
use ddl.Core.Globals.{Globals}
use ddl.Core.Globals
use ddl.Core.Locals.{Locals}
use ddl.Core.Semantics.Value.{Head, Value, FieldValues, Items, stuck, no_elims, insert}
use ddl.Core.Semantics.Elimination.{Evaluator, branch_or_default, bool_elim, int_elim}
use ddl.Core.Semantics.Eval.{eval_global, eval_terms, eval_fields, eval_term, eval}

module _ (ev ev' : Evaluator)
    (h : (locals : Locals Value) (term : Term) → ev locals term ⊑ ev' locals term) where
  eval_terms-⊑ :
      (locals : Locals Value) (ts : Terms) → eval_terms ev locals ts ⊑ eval_terms ev' locals ts
  unfolding eval_terms
  eval_terms-⊑ locals no_terms = same
  eval_terms-⊑ locals (more_terms t ts) =
      >>=-⊑ (h locals t) λ v. >>=-⊑ (eval_terms-⊑ locals ts) λ vs. same

  eval_fields-⊑ :
      (locals : Locals Value) (fs : FieldDefinitions) (acc : FieldValues)
      → eval_fields ev locals fs acc ⊑ eval_fields ev' locals fs acc
  unfolding eval_fields
  eval_fields-⊑ locals no_fields acc = same
  eval_fields-⊑ locals (field l t fs) acc =
      >>=-⊑ (h locals t) λ v. eval_fields-⊑ locals fs (insert l v acc)

  eval_global-⊑ :
      (locals : Locals Value) (name : String) (o : Option (Term × Option Term))
      → eval_global ev locals name o ⊑ eval_global ev' locals name o
  eval_global-⊑ locals name none = same
  eval_global-⊑ locals name (some (_, some t)) = h locals t
  eval_global-⊑ locals name (some (_, none)) = same

  branch_or_default-⊑ :
      (locals : Locals Value) (o : Option Term) (d : Term)
      → branch_or_default ev locals o d ⊑ branch_or_default ev' locals o d
  branch_or_default-⊑ locals none d = h locals d
  branch_or_default-⊑ locals (some t) d = h locals t

  bool_elim-⊑ :
      (locals : Locals Value) (v : Value) (t e : Term)
      → bool_elim ev locals v t e ⊑ bool_elim ev' locals v t e
  unfolding bool_elim
  bool_elim-⊑ locals (stuck (Head.global name) no_elims) t e =
      if-⊑ (str_eq name "true") (h locals t) (if-⊑ (str_eq name "false") (h locals e) same)
  bool_elim-⊑ locals _ t e = same

  int_elim-⊑ :
      (locals : Locals Value) (v : Value) (bs : Branches) (d : Term)
      → int_elim ev locals v bs d ⊑ int_elim ev' locals v bs d
  unfolding int_elim
  int_elim-⊑ locals (Value.primitive (Primitive.int n)) bs d =
      branch_or_default-⊑ locals (get_branch bs n) d
  int_elim-⊑ locals _ bs d = same

  eval_term-⊑ :
      (globals : Globals) (items : Items) (locals : Locals Value) (term : Term)
      → eval_term ev globals items locals term ⊑ eval_term ev' globals items locals term
  unfolding eval_term
  eval_term-⊑ globals items locals (Term.global name) =
      eval_global-⊑ locals name (Globals.get globals name)
  eval_term-⊑ globals items locals (Term.ann term _) = h locals term
  eval_term-⊑ globals items locals (Term.function_type p b) =
      >>=-⊑ (h locals p) λ v. >>=-⊑ (h locals b) λ w. same
  eval_term-⊑ globals items locals (Term.function_elim f a) =
      >>=-⊑ (h locals f) λ v. >>=-⊑ (h locals a) λ w. same
  eval_term-⊑ globals items locals (Term.struct_term fs) =
      >>=-⊑ (eval_fields-⊑ locals fs _) λ v. same
  eval_term-⊑ globals items locals (Term.struct_elim t l) = >>=-⊑ (h locals t) λ v. same
  eval_term-⊑ globals items locals (Term.array_term ts) = >>=-⊑ (eval_terms-⊑ locals ts) λ v. same
  eval_term-⊑ globals items locals (Term.bool_elim c t e) =
      >>=-⊑ (h locals c) λ v. bool_elim-⊑ locals v t e
  eval_term-⊑ globals items locals (Term.int_elim c bs d) =
      >>=-⊑ (h locals c) λ v. int_elim-⊑ locals v bs d
  eval_term-⊑ globals items locals _ = same

module _ (globals : Globals) (items : Items) where
  pub eval-⊑ :
      (f g : ℕ)
      → f ≤ g
      → (locals : Locals Value) (term : Term)
      → eval f globals items locals term ⊑ eval g globals items locals term
  unfolding eval
  eval-⊑ zero g h locals term = below
  eval-⊑ (suc f) zero h locals term = absurd (omega arith)
  eval-⊑ (suc f) (suc g) h locals term =
      eval_term-⊑ (eval f globals items) (eval g globals items) (eval-⊑ f g (omega arith)) globals
        items locals term

  -- More fuel does not change the value that a term evaluates to.
  pub eval_mono :
      (f g : ℕ) (locals : Locals Value) (term : Term) (v : Value)
      → f ≤ g
      → eval f globals items locals term ≡ ok v
      → eval g globals items locals term ≡ ok v
  eval_mono f g locals term v h e = ⊑-ok (eval-⊑ f g h locals term) e
