-- ===== src/Surface/Elaborate/Sound/Check.antt =====
-- fathom/src/pass/surface_to_core.rs: the core checker accepts what `check_type` elaborates.
use text.Mathlib.Text.{◌==◌ as str_eq}
use text.Mathlib.TextEquality.{eq_iff}
use mathlib.Core.Path.{subst}
use ddl.Prelude.{
  ℕ, suc, String, Bool, true, false, Option, some, none, Bool-cases, inl, inr, ◌≡◌, refl, sym, ap,
  ◌∙◌,
}
use ddl.Literal.Parse.{Parses}
use ddl.Core.Term as Core
use ddl.Core.Term.{Primitive}
use ddl.Core.Semantics.Value.{Head, Value, stuck, no_elims, global_value}
use ddl.Core.Typing.Terms.{array_type, has_length, count_terms}
use ddl.Core.Typing.Derives.{HasType, HasType-int, HasType-f32, HasType-f64}
use ddl.Core.Typing.Derives.Accepts.{
  AreAccepted, IsAccepted-error, IsAccepted-global, IsAccepted-synth, IsAccepted-bool_elim,
  IsAccepted-array,
}
use ddl.Surface.Term.{Term, Terms, no_terms, more_terms}
use ddl.Surface.Elaborate.Context.{Context, Elaborates}
use ddl.Surface.Elaborate.Host.{Host, Typed}
use ddl.Surface.Elaborate.Check.{
  count_elems, elaborate_elems, array_or_mismatch, elaborate_sequence, elaborate_literal,
  primitive_or_error, number_named, elaborate_number, differ, elaborate_synth, elaborate_data,
  unless_error_type, check_term,
}
use ddl.Surface.Elaborate.Quiet.{Quiet-parses, Quiet-to_surface}
use ddl.Surface.Elaborate.Sound.{
  core_context, Yields, Yields-pure, Yields-Quiet, Yields-is_equal, ◌⇒◌,
}
use ddl.Surface.Elaborate.Sound.Direct.{
  NotIf, IsDirect, AreDirect, Accepts, Types, Yields-error, Yields-reject, Yields-reject_value,
}
use ddl.Surface.Elaborate.Sound.Match.{Yields-match_head}

module _ {A : Type 0} (c : Context) (name : String) (primitive : A → Primitive) (m : Parses A)
    (typed : (a : A)
      → HasType (core_context c) (Core.Term.primitive (primitive a)) (global_value name)) where
  Accepts-primitive :
      (o : Option A) → Accepts c (global_value name) (primitive_or_error primitive o)
  Accepts-primitive none = IsAccepted-error (global_value name)
  Accepts-primitive (some a) = IsAccepted-global _ name tt (typed a)

  Yields-literal : Yields c (Accepts c (global_value name)) (elaborate_literal primitive m)
  unfolding elaborate_literal
  Yields-literal = Yields-Quiet (Quiet-parses m) ⇒ λ o _. Yields-pure _ (Accepts-primitive o)

module _ (host : Host) (fuel : ℕ) (synth : Term → Elaborates Typed)
    (check : Term → Value → Elaborates Core.Term) (c : Context)
    (ks : (t : Term) → IsDirect t → Yields c (Types c t) (synth t))
    (kc : (t : Term) (v : Value) → IsDirect t → Yields c (Accepts c v) (check t v)) where
  -- As many elements as in the sequence, each accepted.
  abbrev Elems : Terms → Value → Core.Terms → Type 0
  Elems ts v us = AreAccepted (core_context c) us v × (count_terms us ≡ count_elems ts)

  Yields-Elems :
      (ts : Terms) (v : Value)
      → AreDirect ts
      → Yields c (Elems ts v) (elaborate_elems host fuel synth check ts v)
  unfolding elaborate_elems count_terms count_elems
  Yields-Elems no_terms v d = Yields-pure _ (tt, refl)
  Yields-Elems (more_terms t ts) v d =
      kc t v d.0 ⇒ λ u a. Yields-Elems ts v d.1 ⇒ λ us h. Yields-pure _ ((a, h.0), ap suc h.1)

  Yields-length :
      (ts : Terms) (us : Core.Terms) (v len elem_type : Value) (b : Bool)
      → array_type v ≡ some (len, elem_type)
      → has_length len (count_elems ts) ≡ b
      → Elems ts elem_type us
      → Yields c (Accepts c v) (array_or_mismatch host fuel synth check (count_elems ts) us len b)
  Yields-length ts us v len w true e l h =
      Yields-pure _ (IsAccepted-array us v len w e (ap (has_length len) (h.1) ∙ l) h.0)
  Yields-length ts us v len w false e l h = Yields-reject_value v host fuel len _

  Yields-sequence :
      (ts : Terms) (v : Value) (o : Option (Value × Value))
      → array_type v ≡ o
      → AreDirect ts
      → Yields c (Accepts c v) (elaborate_sequence host fuel synth check ts v o)
  Yields-sequence ts v none e d = Yields-reject_value v host fuel v _
  Yields-sequence ts v (some (len, w)) e d = Yields-Elems ts w d ⇒ λ us h.
      Yields-length ts us v len w (has_length len (count_elems ts)) e refl h

  -- From the type's name to the name that it is equal to.
  Accepts-name :
      (name name' : String) (m : Elaborates Core.Term)
      → str_eq name name' ≡ true
      → Yields c (Accepts c (global_value name')) m
      → Yields c (Accepts c (global_value name)) m
  Accepts-name name name' m e h =
      subst (λ (n : String). Yields c (Accepts c (global_value n)) m)
        (sym ((eq_iff name name').0 e)) h

  Yields-named :
      (name source : String)
      → Yields c
          (Accepts c (global_value name))
          (number_named host fuel synth check name source (global_value name))
  Yields-named name source = elim (Bool-cases (str_eq name "Int")) [
    | inl e ↦ rw e (Accepts-name name "Int" _ e (Yields-literal c "Int" _ _ HasType-int))
    | inr e ↦ elim (Bool-cases (str_eq name "F32")) [
      | inl e' ↦
          rw (e, e')
            (Accepts-name name "F32" _ e'
              (Yields-literal c "F32" _ _ λ x. HasType-f32 (host.f32_bits x)))
      | inr e' ↦ elim (Bool-cases (str_eq name "F64")) [
        | inl e'' ↦
            rw (e, e', e'')
              (Accepts-name name "F64" _ e''
                (Yields-literal c "F64" _ _ λ x. HasType-f64 (host.f64_bits x)))
        | inr e'' ↦
            rw (e, e', e'')
              (Yields-reject_value (global_value name) host fuel (global_value name) _)
      ]
    ]
  ]

  Yields-number :
      (source : String) (v : Value)
      → Yields c (Accepts c v) (elaborate_number host fuel synth check source v)
  Yields-number source (stuck (Head.global name) no_elims) = Yields-named name source
  Yields-number source v = Yields-reject_value v host fuel v _

  Yields-differ : (v w : Value) → Yields c (Accepts c v) (differ host fuel synth check v w)
  Yields-differ v w = Yields-Quiet (Quiet-to_surface host.display fuel v) ⇒ λ t _.
      Yields-Quiet (Quiet-to_surface host.display fuel w) ⇒ λ u _. Yields-reject v _

  Yields-synth :
      (t : Term) (v : Value)
      → IsDirect t
      → NotIf t
      → Yields c (Accepts c v) (elaborate_synth host fuel synth check t v)
  unfolding elaborate_synth
  Yields-synth t v d i = ks t d ⇒ λ r h. Yields-is_equal fuel r.1 v ⇒ λ b q. elim (Bool-cases b) [
    | inl e ↦ rw e (Yields-pure r.0 (IsAccepted-synth r.0 r.1 v (h.1 i) h.0 (q e)))
    | inr e ↦ rw e (Yields-differ v r.1)
  ]

  Yields-data :
      (t : Term) (v : Value)
      → IsDirect t
      → Yields c (Accepts c v) (elaborate_data host fuel synth check t v)
  unfolding elaborate_data
  Yields-data Term.error v d = Yields-error v
  Yields-data (Term.struct_term fs) v d = absurd d
  Yields-data (Term.sequence_term ts) v d = Yields-sequence ts v (array_type v) refl d
  Yields-data (Term.number_literal source) v d = Yields-number source v
  Yields-data (Term.if_term t u w) v d = kc t (global_value "Bool") d.0 ⇒ λ t' a.
      kc u v d.1.0 ⇒ λ u' b.
      kc w v d.1.1 ⇒ λ w' h. Yields-pure _ (IsAccepted-bool_elim t' u' w' v a b h)
  Yields-data (Term.match_term t arms) v d =
      ks t d.0.0 ⇒ λ r h. Yields-match_head host fuel check c kc v r.0 r.1 arms d.1 (h.1 d.0.1) h.0
  Yields-data t v d = Yields-synth t v d tt

  Yields-unless :
      (v : Value) (m : Elaborates Core.Term)
      → Yields c (Accepts c v) m
      → Yields c (Accepts c v) (unless_error_type host fuel synth check v m)
  Yields-unless Value.error m h = Yields-error Value.error
  Yields-unless v m h = h

  pub Yields-check_term :
      (t : Term) (v : Value)
      → IsDirect t
      → Yields c (Accepts c v) (check_term host fuel synth check t v)
  unfolding check_term
  Yields-check_term t v d = Yields-unless v _ (Yields-data t v d)
