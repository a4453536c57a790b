-- ===== src/Core/Typing/Derives/Accepts.antt =====
-- fathom/src/lang/core/typing.rs: what `check_type` accepts, as typing rules.
use text.Mathlib.TextPositions.{eq_refl}
use ddl.Prelude.{ℕ, ◌≡◌, refl, String, true, some}
use ddl.Outcome.{ok}
use ddl.Core.Term.{Term, Terms, Branches, no_terms, more_terms, no_branches, branch}
use ddl.Core.Semantics.Value.{Value, global_value, count_elims}
use ddl.Core.Semantics.Equal
use ddl.Core.Semantics.Equal.{is_equal_value, is_equal_head, is_equal_spine, is_equal_elims}
use ddl.Core.Typing.Context.{Context, Checks, is_equal}
use ddl.Core.Typing.Terms.{
  array_type, count_terms, has_length, check_elems, check_branches, check_synth, check_data,
  check_term, unless_error,
}
use ddl.Core.Typing.Judgements.{synth_type, check_type}
use ddl.Core.Typing.Derives.{Eventually, next, both, at-once, HasType, IsAccepted, AreEqual}

module _ (c : Context) where
  abbrev pub AreAccepted : Terms → Value → Type 0
  AreAccepted no_terms v = Unit {0}
  AreAccepted (more_terms t ts) v = IsAccepted c t v × AreAccepted ts v

  abbrev pub BranchesAccepted : Branches → Value → Type 0
  BranchesAccepted no_branches v = Unit {0}
  BranchesAccepted (branch n t bs) v = IsAccepted c t v × BranchesAccepted bs v

-- The forms of a term for which `check_type` synthesizes a type, and errors.
abbrev pub Infers : Term → Type 0
Infers (Term.struct_term fs) = ⊥
Infers (Term.array_term ts) = ⊥
Infers (Term.bool_elim t u w) = ⊥
Infers (Term.int_elim t bs u) = ⊥
Infers _ = Unit {0}

AreEqual-global : (c : Context) (name : String) → AreEqual c (global_value name) (global_value name)
unfolding Equal.is_equal is_equal_value is_equal_head is_equal_spine is_equal_elims count_elims
AreEqual-global c name = at-once λ m. rw (eq_refl name)

module _ {c : Context} where
  unless_error-ok :
      (v : Value) (m : Checks (Unit {0}))
      → m c ≡ ok (tt, c)
      → (fuel : ℕ) → unless_error fuel (synth_type fuel) (check_type fuel) v m c ≡ ok (tt, c)
  unless_error-ok Value.error m e fuel = refl
  unless_error-ok v m e fuel = e

  -- From the arms for an expected type that is no error.
  IsAccepted-data :
      (t : Term) (v : Value)
      → Eventually (λ m. check_data m (synth_type m) (check_type m) t v c ≡ ok (tt, c))
      → IsAccepted c t v
  unfolding check_type check_term
  IsAccepted-data t v h = next h λ m h. unless_error-ok v _ h m

  pub IsAccepted-error : (v : Value) → IsAccepted c Term.error v
  unfolding check_data
  IsAccepted-error v = IsAccepted-data Term.error v (0, λ m le. refl)

  -- An inferred type that is equal to the expected one.
  Accepts-synth :
      (t : Term) (v w : Value)
      → HasType c t v
      → AreEqual c v w
      → Eventually (λ m. check_synth m (synth_type m) (check_type m) t w c ≡ ok (tt, c))
  unfolding check_synth is_equal
  Accepts-synth t v w h q = let (n, k) = both h q in (n, λ m le. rw ((k m le).0, (k m le).1))

  pub IsAccepted-synth :
      (t : Term) (v w : Value) → Infers t → HasType c t v → AreEqual c v w → IsAccepted c t w
  unfolding check_data
  IsAccepted-synth (Term.struct_term fs) v w i h q = absurd i
  IsAccepted-synth (Term.array_term ts) v w i h q = absurd i
  IsAccepted-synth (Term.bool_elim t u x) v w i h q = absurd i
  IsAccepted-synth (Term.int_elim t bs u) v w i h q = absurd i
  IsAccepted-synth Term.error v w i h q = IsAccepted-error w
  IsAccepted-synth t v w i h q = IsAccepted-data t w (Accepts-synth t v w h q)

  -- A term with the type of a global without arguments.
  pub IsAccepted-global :
      (t : Term) (name : String)
      → Infers t
      → HasType c t (global_value name)
      → IsAccepted c t (global_value name)
  IsAccepted-global t name i h =
      IsAccepted-synth t (global_value name) (global_value name) i h (AreEqual-global c name)

  pub IsAccepted-bool_elim :
      (t u w : Term) (v : Value)
      → IsAccepted c t (global_value "Bool")
      → IsAccepted c u v
      → IsAccepted c w v
      → IsAccepted c (Term.bool_elim t u w) v
  unfolding check_data
  IsAccepted-bool_elim t u w v a b d =
      let (n, k) = both a (both b d) in
      IsAccepted-data _ v (n, λ m le. rw ((k m le).0, (k m le).1.0, (k m le).1.1))

  Accepts-branches :
      (bs : Branches) (v : Value)
      → BranchesAccepted c bs v
      → Eventually (λ m. check_branches m (synth_type m) (check_type m) bs v c ≡ ok (tt, c))
  unfolding check_branches
  Accepts-branches no_branches v h = (0, λ m le. refl)
  Accepts-branches (branch n t bs) v h =
      let (n', k) = both h.0 (Accepts-branches bs v h.1) in
      (n', λ m le. rw ((k m le).0) ((k m le).1))

  pub IsAccepted-int_elim :
      (t : Term) (bs : Branches) (u : Term) (v : Value)
      → IsAccepted c t (global_value "Int")
      → BranchesAccepted c bs v
      → IsAccepted c u v
      → IsAccepted c (Term.int_elim t bs u) v
  unfolding check_data
  IsAccepted-int_elim t bs u v a b d =
      let (n, k) = both a (both (Accepts-branches bs v b) d) in
      IsAccepted-data _ v (n, λ m le. rw ((k m le).0, (k m le).1.0, (k m le).1.1))

  Accepts-elems :
      (ts : Terms) (v : Value)
      → AreAccepted c ts v
      → Eventually (λ m. check_elems m (synth_type m) (check_type m) ts v c ≡ ok (tt, c))
  unfolding check_elems
  Accepts-elems no_terms v h = (0, λ m le. refl)
  Accepts-elems (more_terms t ts) v h =
      let (n, k) = both h.0 (Accepts-elems ts v h.1) in (n, λ m le. rw ((k m le).0) ((k m le).1))

  pub IsAccepted-array :
      (ts : Terms) (v len elem_type : Value)
      → array_type v ≡ some (len, elem_type)
      → has_length len (count_terms ts) ≡ true
      → AreAccepted c ts elem_type
      → IsAccepted c (Term.array_term ts) v
  unfolding check_data
  IsAccepted-array ts v len elem_type e l h =
      let (n, k) = Accepts-elems ts elem_type h in
      IsAccepted-data _ v (n, λ m le. rw (e, k m le, l))
