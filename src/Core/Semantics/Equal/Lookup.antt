-- ===== src/Core/Semantics/Equal/Lookup.antt =====
-- fathom/src/lang/core/semantics.rs: `is_equal` on spines with a field lookup.
use ddl.Prelude.{
  ℕ, String, zero, suc, ◌≡◌, ◌≢◌, refl, ◌==◌, Bool, true, false, arith, Bool-cases, inl, inr,
}
use ddl.Outcome.{Outcome, ok, timeout}
use ddl.Core.Globals.{Globals}
use ddl.Core.Semantics.Value.{
  Head, Elims, Elim, Items, stuck, no_elims, more_elims, function, struct, bool, int, to_repr,
  count_elims,
}
use ddl.Core.Semantics.Elimination.{Evaluator}
use ddl.Core.Semantics.Equal.{
  Comparison, and_then, is_equal_head, is_equal_elim, is_equal_elims, is_equal_spine,
  is_equal_value, is_equal,
}

-- The spine has a field lookup.
abbrev pub HasStruct : Elims → Type 0
HasStruct no_elims = ⊥
HasStruct (more_elims (struct label) es) = Unit {0}
HasStruct (more_elims _ es) = HasStruct es

and_then-ok : (m n : Outcome ⊥ Bool) → and_then m n ≡ ok true → n ≡ ok true
and_then-ok (ok true) n e = e
and_then-ok (ok false) n e = cc
and_then-ok (Outcome.err x) n e = cc
and_then-ok (Outcome.panic x) n e = cc
and_then-ok timeout n e = cc

struct_never :
    (ev : Evaluator) (eq : Comparison) (label : String) (e : Elim)
    → is_equal_elim ev eq (struct label) e ≡ ok false
unfolding is_equal_elim
struct_never ev eq label (function v) = refl
struct_never ev eq label _ = refl

is_equal_elims-HasStruct :
    (ev : Evaluator) (eq : Comparison) (es es' : Elims)
    → HasStruct es
    → count_elims es ≡ count_elims es'
    → is_equal_elims ev eq es es' ≢ ok true
unfolding is_equal_elims count_elims
is_equal_elims-HasStruct ev eq no_elims es' h n = absurd h
is_equal_elims-HasStruct ev eq (more_elims e es) no_elims h n = absurd (omega arith)
is_equal_elims-HasStruct ev eq (more_elims (struct label) es) (more_elims e' es') h n =
    rw (struct_never ev eq label e') (λ q. cc)
is_equal_elims-HasStruct ev eq (more_elims (function v) es) (more_elims e' es') h n =
    λ q. is_equal_elims-HasStruct ev eq es es' h (omega arith) (and_then-ok _ _ q)
is_equal_elims-HasStruct ev eq (more_elims (bool vs t u) es) (more_elims e' es') h n =
    λ q. is_equal_elims-HasStruct ev eq es es' h (omega arith) (and_then-ok _ _ q)
is_equal_elims-HasStruct ev eq (more_elims (int vs bs t) es) (more_elims e' es') h n =
    λ q. is_equal_elims-HasStruct ev eq es es' h (omega arith) (and_then-ok _ _ q)
is_equal_elims-HasStruct ev eq (more_elims to_repr es) (more_elims e' es') h n =
    λ q. is_equal_elims-HasStruct ev eq es es' h (omega arith) (and_then-ok _ _ q)

-- A stuck value with a field lookup in its spine is found equal to no stuck value, itself included,
-- whatever the fuel is.
pub not-is_equal-HasStruct :
    (globals : Globals) (items : Items) (fuel : ℕ) (head head' : Head) (es es' : Elims)
    → HasStruct es
    → is_equal fuel globals items (stuck head es) (stuck head' es') ≢ ok true
unfolding is_equal is_equal_value is_equal_spine
not-is_equal-HasStruct globals items zero head head' es es' h = λ e. cc
not-is_equal-HasStruct globals items (suc f) head head' es es' h =
    elim (Bool-cases (is_equal_head head head')) [
      | inr differ ↦ rw differ (λ e. cc)
      | inl agree ↦ elim (Bool-cases (count_elims es == count_elims es')) [
        | inr differ ↦ rw (agree, differ) (λ e. cc)
        | inl same ↦ rw (agree, same) (is_equal_elims-HasStruct _ _ es es' h (ground arith))
      ]
    ]
