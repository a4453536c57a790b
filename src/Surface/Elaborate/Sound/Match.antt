-- ===== src/Surface/Elaborate/Sound/Match.antt =====
-- fathom/src/pass/surface_to_core.rs: the core checker accepts the branches of a match.
use text.Mathlib.Text.{◌==◌ as str_eq}
use text.Mathlib.TextEquality.{eq_iff}
use mathlib.Core.Path.{subst}
use ddl.Prelude.{ℕ, String, Option, some, none, Bool-cases, inl, inr}
use ddl.Prelude.Int.{ℤ, ltb_ℤ}
use ddl.Location.{generated}
use ddl.Literal.Parse.{number_to_big_int}
use ddl.Core.Term as Core
use ddl.Core.Term.{get_branch}
use ddl.Core.Semantics.Value.{Head, Value, stuck, no_elims, global_value}
use ddl.Core.Typing.Derives.{HasType}
use ddl.Core.Typing.Derives.Accepts.{
  Infers, BranchesAccepted, IsAccepted-global, IsAccepted-int_elim,
}
use ddl.Surface.Term.{Term, Pattern, Arms, no_arms, arm}
use ddl.Surface.Elaborate.Context.{Context, Elaborates}
use ddl.Surface.Elaborate.Host.{Host}
use ddl.Surface.Elaborate.Match.{
  insert_branch, place_new, place_branch, place_default, default_or_error, from_int_branches,
  match_int, match_named, match_head,
}
use ddl.Surface.Elaborate.Quiet.{Quiet-push_message, Quiet-parses}
use ddl.Surface.Elaborate.Sound.{core_context, Yields, Yields-pure, Yields-Quiet, ◌⇒◌}
use ddl.Surface.Elaborate.Sound.Direct.{
  IsDirect, ArmsDirect, Accepts, Yields-error, Yields-reject_value,
}

module _ (c : Context) (v : Value) where
  abbrev Branches' : Core.Branches → Type 0
  Branches' bs = BranchesAccepted (core_context c) bs v

  abbrev Default : Option Core.Term → Type 0
  Default none = Unit {0}
  Default (some t) = Accepts c v t

  insert_branch-accepted :
      (n : ℤ) (t : Core.Term) (bs : Core.Branches)
      → Accepts c v t
      → Branches' bs
      → Branches' (insert_branch n t bs)
  insert_branch-accepted n t Core.Branches.no_branches a h = (a, tt)
  insert_branch-accepted n t (Core.Branches.branch n' t' bs) a h = elim (Bool-cases (ltb_ℤ n n')) [
    | inl e ↦ rw e (a, h)
    | inr e ↦ rw e (h.0, insert_branch-accepted n t bs a h.1)
  ]

  Yields-place_new :
      (n : ℤ) (t : Core.Term) (bs : Core.Branches) (o : Option Core.Term)
      → Accepts c v t
      → Branches' bs
      → Yields c Branches' (place_new n t bs o)
  Yields-place_new n t bs none a h = Yields-pure _ (insert_branch-accepted n t bs a h)
  Yields-place_new n t bs (some u) a h =
      Yields-Quiet (Quiet-push_message _) ⇒ λ _ _. Yields-pure _ h

  Yields-place_branch :
      (n : Option ℤ) (t : Core.Term) (bs : Core.Branches) (o : Option Core.Term)
      → Accepts c v t
      → Branches' bs
      → Yields c Branches' (place_branch n t bs o)
  Yields-place_branch none t bs o a h = Yields-pure _ h
  Yields-place_branch (some n) t bs none a h = Yields-place_new n t bs (get_branch bs n) a h
  Yields-place_branch (some n) t bs (some u) a h =
      Yields-Quiet (Quiet-push_message _) ⇒ λ _ _. Yields-pure _ h

  Yields-place_default :
      (t : Core.Term) (o : Option Core.Term)
      → Accepts c v t
      → Default o
      → Yields c Default (place_default t o)
  Yields-place_default t none a h = Yields-pure _ a
  Yields-place_default t (some u) a h = Yields-Quiet (Quiet-push_message _) ⇒ λ _ _. Yields-pure _ h

  Yields-Default : (o : Option Core.Term) → Default o → Yields c (Accepts c v) (default_or_error o)
  Yields-Default (some t) h = Yields-pure t h
  Yields-Default none h = Yields-Quiet (Quiet-push_message _) ⇒ λ _ _. Yields-error v

module _ (host : Host) (fuel : ℕ) (check : Term → Value → Elaborates Core.Term) (c : Context)
    (kc : (t : Term) (v : Value) → IsDirect t → Yields c (Accepts c v) (check t v))
    (v : Value) where
  Yields-branches :
      (arms : Arms) (bs : Core.Branches) (o : Option Core.Term)
      → ArmsDirect arms
      → Branches' c v bs
      → Default c v o
      → Yields c
          (λ r. Branches' c v r.0 × Accepts c v r.1)
          (from_int_branches host fuel check v arms bs o)
  unfolding from_int_branches
  Yields-branches no_arms bs o d h k = Yields-Default c v o k ⇒ λ t a. Yields-pure _ (h, a)
  Yields-branches (arm (Pattern.number_literal source) t arms) bs o d h k = kc t v d.0 ⇒ λ u a.
      Yields-Quiet (Quiet-parses (number_to_big_int generated host.lexers (host.lexer source)))
      ⇒ λ n _. Yields-place_branch c v n u bs o a h ⇒ λ bs' h'. Yields-branches arms bs' o d.1 h' k
  Yields-branches (arm (Pattern.name name) t arms) bs o d h k = kc t v d.0 ⇒ λ u a.
      Yields-place_default c v u o a k ⇒ λ o' k'. Yields-branches arms bs o' d.1 h k'

  Yields-match_int :
      (t : Core.Term) (arms : Arms)
      → ArmsDirect arms
      → Accepts c (global_value "Int") t
      → Yields c (Accepts c v) (match_int host fuel check t arms v)
  Yields-match_int t arms d a = Yields-branches arms Core.Branches.no_branches none d tt tt ⇒ λ r h.
      Yields-pure _ (IsAccepted-int_elim t r.0 r.1 v a h.0 h.1)

  Yields-match_named :
      (name : String) (t : Core.Term) (arms : Arms)
      → ArmsDirect arms
      → Infers t
      → HasType (core_context c) t (global_value name)
      → Yields c (Accepts c v) (match_named host fuel check name t (global_value name) arms v)
  Yields-match_named name t arms d i h = elim (Bool-cases (str_eq name "Bool")) [
    | inl e ↦ rw e (Yields-Quiet (Quiet-push_message _) ⇒ λ _ _. Yields-error v)
    | inr e ↦ elim (Bool-cases (str_eq name "Int")) [
      | inl e' ↦
          rw (e, e')
            (Yields-match_int t arms d (
              subst (λ (n : String). Accepts c (global_value n) t) ((eq_iff name "Int").0 e')
                (IsAccepted-global t name i h)))
      | inr e' ↦ rw (e, e') (Yields-reject_value v host fuel (global_value name) _)
    ]
  ]

  pub Yields-match_head :
      (t : Core.Term) (w : Value) (arms : Arms)
      → ArmsDirect arms
      → Infers t
      → HasType (core_context c) t w
      → Yields c (Accepts c v) (match_head host fuel check (t, w) arms v)
  Yields-match_head t Value.error arms d i h = Yields-error v
  Yields-match_head t (stuck (Head.global name) no_elims) arms d i h =
      Yields-match_named name t arms d i h
  Yields-match_head t w arms d i h = Yields-reject_value v host fuel w _
