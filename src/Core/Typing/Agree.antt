-- ===== src/Core/Typing/Agree.antt =====
-- fathom/src/lang/core/typing.rs: `check_type` with a type that is not equal to itself.
use ddl.Prelude.{ℕ, suc, [], ◌∷◌, ◌++◌, ◌≡◌, ◌≢◌, refl, sym, ap, ◌∙◌, Bool, true, false}
use ddl.Outcome.{Outcome, ok, err, panic, timeout}
use ddl.Outcome.Post.{Ends, returns, panics, expires, Ends-ok}
use ddl.Core.Term.{Term}
use ddl.Core.Semantics.Value.{Value, Head, Elims, stuck}
use ddl.Core.Semantics.Equal
use ddl.Core.Semantics.ReadBack
use ddl.Core.Semantics.Equal.Lookup.{HasStruct, not-is_equal-HasStruct}
use ddl.Core.Typing.Message.{type_mismatch}
use ddl.Core.Typing.Context.{Context, Checks, size, is_equal, read_back, push_message}
use ddl.Core.Typing.Terms.{unless_error, mismatch, check_equal, check_term, check_data, check_synth}
use ddl.Core.Typing.Judgements.{synth_type, check_type}

-- The terms that `check_type` checks by their synthesized type.
abbrev pub IsChecked : Term → Type 0
IsChecked Term.error = ⊥
IsChecked (Term.struct_term _) = ⊥
IsChecked (Term.array_term _) = ⊥
IsChecked (Term.bool_elim _ _ _) = ⊥
IsChecked (Term.int_elim _ _ _) = ⊥
IsChecked _ = Unit {0}

module _ (fuel : ℕ) (synth : Term → Checks Value) (check : Term → Value → Checks (Unit {0})) where
  unless_error_lem :
      (v : Value) (m : Checks (Unit {0})) → v ≢ Value.error → unless_error fuel synth check v m ≡ m
  unless_error_lem Value.error m n = absurd (n refl)
  unless_error_lem (stuck _ _) m n = refl
  unless_error_lem (Value.sort _) m n = refl
  unless_error_lem (Value.function_type _ _) m n = refl
  unless_error_lem (Value.struct_term _) m n = refl
  unless_error_lem (Value.array_term _) m n = refl
  unless_error_lem (Value.primitive _) m n = refl
  unless_error_lem Value.format_type m n = refl
  unless_error_lem Value.repr m n = refl

  check_data-IsChecked :
      (term : Term) (v : Value)
      → IsChecked term
      → check_data fuel synth check term v ≡ check_synth fuel synth check term v
  unfolding check_data
  check_data-IsChecked (Term.global _) v h = refl
  check_data-IsChecked (Term.item _) v h = refl
  check_data-IsChecked (Term.local _) v h = refl
  check_data-IsChecked (Term.ann _ _) v h = refl
  check_data-IsChecked (Term.sort _) v h = refl
  check_data-IsChecked (Term.function_type _ _) v h = refl
  check_data-IsChecked (Term.function_elim _ _) v h = refl
  check_data-IsChecked (Term.struct_elim _ _) v h = refl
  check_data-IsChecked (Term.primitive _) v h = refl
  check_data-IsChecked Term.format_type v h = refl
  check_data-IsChecked Term.repr v h = refl
  check_data-IsChecked Term.error v h = absurd h
  check_data-IsChecked (Term.struct_term _) v h = absurd h
  check_data-IsChecked (Term.array_term _) v h = absurd h
  check_data-IsChecked (Term.bool_elim _ _ _) v h = absurd h
  check_data-IsChecked (Term.int_elim _ _ _) v h = absurd h

  check_term-IsChecked :
      (term : Term) (v : Value)
      → IsChecked term
      → v ≢ Value.error
      → check_term fuel synth check term v ≡ check_synth fuel synth check term v
  unfolding check_term
  check_term-IsChecked term v h n =
      unless_error_lem v (check_data fuel synth check term v) n ∙ check_data-IsChecked term v h

module _ (fuel : ℕ) (found : Value) (c : Context) where
  mismatch_lem :
      (m : Outcome ⊥ Term)
      → ReadBack.read_back fuel c.globals c.item_definitions (size c) found ≡ m
      → Ends
          (λ r. (t : Term) × (r.1 ≡ record c { messages = c.messages ++ (type_mismatch t t ∷ []) }))
          (mismatch fuel (synth_type fuel) (check_type fuel) found found c)
  unfolding mismatch read_back push_message
  mismatch_lem (ok t) e = rw (e, e) (returns (t, refl))
  mismatch_lem (err x) e = absurd x
  mismatch_lem (panic x) e = rw e panics
  mismatch_lem timeout e = rw e expires

  differs_lem :
      (o : Outcome ⊥ Bool)
      → Equal.is_equal fuel c.globals c.item_definitions found found ≡ o
      → o ≢ ok true
      → Ends
          (λ r. (t : Term) × (r.1 ≡ record c { messages = c.messages ++ (type_mismatch t t ∷ []) }))
          (ddl.Core.Typing.Context.◌>>=◌
            (is_equal fuel found found)
            (check_equal fuel (synth_type fuel) (check_type fuel) found found)
            c)
  unfolding is_equal
  differs_lem (ok true) e n = absurd (n refl)
  differs_lem (ok false) e n = rw e (mismatch_lem _ refl)
  differs_lem (err x) e n = absurd x
  differs_lem (panic x) e n = rw e panics
  differs_lem timeout e n = rw e expires

-- A term that is no error, struct, array or conditional, and whose synthesized type is stuck with
-- a field lookup in its spine, fails the check by that very type: if the check ends, there is one
-- more message, a mismatch between two terms that are the same.
pub check_type-HasStruct :
    (fuel : ℕ) (term : Term) (head : Head) (elims : Elims) (c d d' : Context)
    → IsChecked term
    → HasStruct elims
    → synth_type fuel term c ≡ ok (stuck head elims, d)
    → check_type (suc fuel) term (stuck head elims) c ≡ ok (tt, d')
    → (t : Term) × (d' ≡ record d { messages = d.messages ++ (type_mismatch t t ∷ []) })
unfolding check_type check_synth
check_type-HasStruct fuel term head elims c d d' h stuck' e q =
    let v = stuck head elims in
    let same =
      ap (λ m. m c)
        (check_term-IsChecked fuel (synth_type fuel) (check_type fuel) term v h λ p. cc) in
    let ends =
      differs_lem fuel v d (Equal.is_equal fuel d.globals d.item_definitions v v) refl
        (not-is_equal-HasStruct d.globals d.item_definitions fuel head head elims elims stuck') in
    Ends-ok ends (sym (same ∙ rw e) ∙ q)
