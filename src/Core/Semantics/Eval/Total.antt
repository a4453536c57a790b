-- ===== src/Core/Semantics/Eval/Total.antt =====
-- fathom/src/lang/core/semantics.rs: `eval` returns a value, and does not panic.
use mathlib.Core.Path.{subst}
use mathlib.Core.Option.{some-injective}
use text.Mathlib.Text.{◌==◌ as str_eq}
use ddl.Prelude.{
  ℕ, String, zero, suc, ◌≤◌, ◌<◌, ◌≡◌, ◌≢◌, refl, Bool, true, false, ◌&&◌, Option, none, some, List,
  [], ◌∷◌, length, arith, Bool-cases, inl, inr,
}
use ddl.Prelude.Int.{ℤ, eq_ℤ}
use ddl.Outcome.{Outcome, ok, panic, unwrap_none}
use ddl.Core.Term.{
  Term, Terms, FieldDefinitions, Branches, Primitive, no_terms, more_terms, no_fields, field,
  no_branches, branch, get_entry, get_branch,
}
use ddl.Core.Term.Scope.{
  depth, depth_terms, depth_fields, depth_branches, IsScoped, AreScoped, AreScopedFields,
  AreScopedBranches,
}
use ddl.Core.Globals.{Globals, default}
use ddl.Core.Globals
use ddl.Core.Locals.{Locals, u32_end, get-some}
use ddl.Core.Locals
use ddl.Core.Semantics.Value.{
  Head, Value, Values, FieldValues, Items, ItemData, stuck, no_elims, insert,
}
use ddl.Core.Semantics.Elimination.{
  Evaluator, branch_or_default, function_elim, struct_elim, bool_elim, int_elim,
}
use ddl.Core.Semantics.Eval.{eval_item, eval_global, eval_terms, eval_fields, eval_term, eval}

-- No global has a definition, as in `Globals::default`.
abbrev pub IsOpaque : Globals → Type 0
IsOpaque globals =
    (name : String) (type' term : Term) → Globals.get globals name ≢ some (type', some term)

abbrev Returns : {A : Type 0} → Outcome ⊥ A → Type 0
Returns {A} m = (a : A) × (m ≡ ok a)

module _ (ev : Evaluator) (locals : Locals Value) where
  bool_elim-Returns :
      (v : Value) (t e : Term)
      → Returns (ev locals t)
      → Returns (ev locals e)
      → Returns (bool_elim ev locals v t e)
  unfolding bool_elim
  bool_elim-Returns (stuck (Head.global name) no_elims) t e p q =
      elim (Bool-cases (str_eq name "true")) [
        | inl yes' ↦ rw yes' p
        | inr no' ↦ elim (Bool-cases (str_eq name "false")) [
          | inl yes' ↦ rw (no', yes') q
          | inr no'' ↦ rw (no', no'') (_, refl)
        ]
      ]
  bool_elim-Returns _ t e p q = (_, refl)

  branch_or_default-Returns :
      (o : Option Term) (d : Term)
      → ((t : Term) → o ≡ some t → Returns (ev locals t))
      → Returns (ev locals d)
      → Returns (branch_or_default ev locals o d)
  branch_or_default-Returns none d p q = q
  branch_or_default-Returns (some t) d p q = p t refl

  int_elim-Returns :
      (v : Value) (bs : Branches) (d : Term)
      → ((key : ℤ) (t : Term) → get_branch bs key ≡ some t → Returns (ev locals t))
      → Returns (ev locals d)
      → Returns (int_elim ev locals v bs d)
  unfolding int_elim
  int_elim-Returns (Value.primitive (Primitive.int n)) bs d p q =
      branch_or_default-Returns (get_branch bs n) d (p n) q
  int_elim-Returns _ bs d p q = (_, refl)

eval_item-Returns : (name : String) (o : Option ItemData) → Returns (eval_item name o)
eval_item-Returns name none = (_, refl)
eval_item-Returns name (some (ItemData.constant v)) = (_, refl)
eval_item-Returns name (some (ItemData.struct_type _ _)) = (_, refl)
eval_item-Returns name (some (ItemData.struct_format _ _)) = (_, refl)

eval_global-Returns :
    (ev : Evaluator) (locals : Locals Value) (name : String) (o : Option (Term × Option Term))
    → ((type' term : Term) → o ≢ some (type', some term))
    → Returns (eval_global ev locals name o)
eval_global-Returns ev locals name none h = (_, refl)
eval_global-Returns ev locals name (some (ty, some t)) h = absurd (h ty t refl)
eval_global-Returns ev locals name (some (ty, none)) h = (_, refl)

module _ (globals : Globals) (items : Items) (locals : Locals Value) (o : IsOpaque globals)
    (fits : length locals.entries < u32_end) where
  mutual
    unfolding eval eval_term eval_terms eval_fields get_branch

    eval-Returns :
        (f : ℕ) (t : Term)
        → depth t ≤ f
        → IsScoped (length locals.entries) t
        → Returns (eval f globals items locals t)
    eval-Returns zero (Term.ann t u) d s = absurd (omega arith)
    eval-Returns zero _ d s = absurd (omega arith)
    eval-Returns (suc f) (Term.global name) d s =
        eval_global-Returns (eval f globals items) locals name _ (o name)
    eval-Returns (suc f) (Term.item name) d s = eval_item-Returns name (get_entry items name)
    eval-Returns (suc f) (Term.local index) d s =
        let (v, e) = get-some locals index fits s in (v, rw e)
    eval-Returns (suc f) (Term.ann t u) d s = eval-Returns f t (omega arith) s
    eval-Returns (suc f) (Term.function_type t u) d s =
        let (v, p) = eval-Returns f t (omega arith) s.0 in
        let (w, q) = eval-Returns f u (omega arith) s.1 in (Value.function_type v w, rw (p, q))
    eval-Returns (suc f) (Term.function_elim t u) d s =
        let (v, p) = eval-Returns f t (omega arith) s.0 in
        let (w, q) = eval-Returns f u (omega arith) s.1 in (function_elim v w, rw (p, q))
    eval-Returns (suc f) (Term.struct_term fs) d s =
        let (v, p) = eval_fields-Returns f fs FieldValues.no_fields (omega arith) s in
        (Value.struct_term v, rw p)
    eval-Returns (suc f) (Term.struct_elim t label) d s =
        let (v, p) = eval-Returns f t (omega arith) s in (struct_elim v label, rw p)
    eval-Returns (suc f) (Term.array_term ts) d s =
        let (v, p) = eval_terms-Returns f ts (omega arith) s in (Value.array_term v, rw p)
    eval-Returns (suc f) (Term.bool_elim t u w) d s =
        let (v, p) = eval-Returns f t (omega arith) s.0 in
        rw p (
          bool_elim-Returns (eval f globals items) locals v u w (eval-Returns f u (omega arith) s.1)
            (eval-Returns f w (omega arith) s.2))
    eval-Returns (suc f) (Term.int_elim t bs w) d s =
        let (v, p) = eval-Returns f t (omega arith) s.0 in
        rw p (
          int_elim-Returns (eval f globals items) locals v bs w
            (branches-Returns f bs (omega arith) s.1) (eval-Returns f w (omega arith) s.2))
    eval-Returns (suc f) _ d s = (_, refl)

    eval_terms-Returns :
        (f : ℕ) (ts : Terms)
        → depth_terms ts ≤ f
        → AreScoped (length locals.entries) ts
        → Returns (eval_terms (eval f globals items) locals ts)
    eval_terms-Returns f no_terms d s = (_, refl)
    eval_terms-Returns f (more_terms t ts) d s =
        let (v, p) = eval-Returns f t (omega arith) s.0 in
        let (vs, q) = eval_terms-Returns f ts (omega arith) s.1 in
        (Values.more_values v vs, rw (p, q))

    eval_fields-Returns :
        (f : ℕ) (fs : FieldDefinitions) (acc : FieldValues)
        → depth_fields fs ≤ f
        → AreScopedFields (length locals.entries) fs
        → Returns (eval_fields (eval f globals items) locals fs acc)
    eval_fields-Returns f no_fields acc d s = (_, refl)
    eval_fields-Returns f (field label t fs) acc d s =
        let (v, p) = eval-Returns f t (omega arith) s.0 in
        rw p (eval_fields-Returns f fs (insert label v acc) (omega arith) s.1)

    branches-Returns :
        (f : ℕ) (bs : Branches)
        → depth_branches bs ≤ f
        → AreScopedBranches (length locals.entries) bs
        → (key : ℤ) (t : Term) → get_branch bs key ≡ some t
        → Returns (eval f globals items locals t)
    branches-Returns f no_branches d s key t e = cc
    branches-Returns f (branch k u bs) d s key t e = elim (Bool-cases (eq_ℤ k key)) [
      | inl hit ↦
          subst (λ x. Returns (eval f globals items locals x)) (some-injective _ _ (rw hit at e))
            (eval-Returns f u (omega arith) s.0)
      | inr miss ↦ branches-Returns f bs (omega arith) s.1 key t (rw miss at e)
    ]

-- Where no global has a definition and the size of the environment fits a `u32`, a term whose local indices lie in the environment evaluates to a
-- value with as much fuel as it is deep: `eval` ends, and its `unwrap` does not panic.
pub eval_total :
    (globals : Globals) (items : Items) (locals : Locals Value) (fuel : ℕ) (t : Term)
    → IsOpaque globals
    → length locals.entries < u32_end
    → IsScoped (length locals.entries) t
    → depth t ≤ fuel
    → (v : Value) × (eval fuel globals items locals t ≡ ok v)
eval_total globals items locals fuel t o fits s d =
    eval-Returns globals items locals o fits fuel t d s

-- An index outside an environment whose size fits a `u32` makes `eval` panic, with any fuel but none: the branch for a missing local
-- unwraps the same conversion that found it missing.
pub eval-local_unbound :
    (globals : Globals) (items : Items) (locals : Locals Value) (fuel index : ℕ)
    → length locals.entries < u32_end
    → length locals.entries ≤ index
    → eval (suc fuel) globals items locals (Term.local index) ≡ panic unwrap_none
unfolding eval eval_term Locals.get
eval-local_unbound globals items locals fuel index fits h = ground arith

abbrev is_none {ℓ} : {A : Type ℓ} → Option A → Bool
is_none none = true
is_none (some a) = false

abbrev all_opaque : List (String × (Term × Option Term)) → Bool
all_opaque [] = true
all_opaque ((name, (type', term)) ∷ rest) = is_none term && all_opaque rest

all_opaque-get_entry :
    (xs : List (String × (Term × Option Term)))
    → all_opaque xs ≡ true
    → (name : String) (type' term : Term) → get_entry xs name ≢ some (type', some term)
all_opaque-get_entry [] h name type' term = λ e. cc
all_opaque-get_entry ((key, (ty, none)) ∷ rest) h name type' term =
    ground (arith, all_opaque-get_entry rest h name type' term)
all_opaque-get_entry ((key, (ty, some t)) ∷ rest) h name type' term = cc

-- The globals that the compiler starts with have types and no definitions.
pub default-IsOpaque : IsOpaque default
unfolding Globals.get default
default-IsOpaque = all_opaque-get_entry default.entries refl
