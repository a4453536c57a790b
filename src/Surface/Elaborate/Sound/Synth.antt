-- ===== src/Surface/Elaborate/Sound/Synth.antt =====
-- fathom/src/pass/surface_to_core.rs: what `synth_type` elaborates has the type that it gives, in the
-- core checker.
use ddl.Prelude.{ℕ, String, Bool, true, false, Option, some, none, ◌≡◌, ◌≢◌, refl}
use ddl.Outcome.{ok}
use ddl.Core.Term as Core
use ddl.Core.Term.{Sort}
use ddl.Core.Semantics.Value.{Value, global_value}
use ddl.Core.Semantics.Fields.{FieldDeclarations}
use ddl.Core.Typing.Context as Checked
use ddl.Core.Typing.Terms.{rule}
use ddl.Core.Typing.Derives.{
  HasType, EvaluatesTo, HasField, HasType-ann, HasType-type, HasType-function_type,
  HasType-function_elim, HasType-bool_elim, HasType-format_type, HasType-repr, HasType-error,
  HasType-struct_elim, AreEqual,
}
use ddl.Core.Typing.Derives.Accepts.{Infers}
use ddl.Surface.Term.{Term, Terms, no_terms, more_terms}
use ddl.Surface.Elaborate.Message.{SurfaceToCoreMessage}
use ddl.Surface.Elaborate.Context.{Context, Elaborates}
use ddl.Surface.Elaborate.Host.{Host, Typed, reject_value, fail_value}
use ddl.Surface.Elaborate.Synth.{
  Sorted, error_typed, sort_or_error, elaborate_type, annotate, annotate_or_error,
  function_or_error, apply_arguments, lookup_or_missing, lookup_field, lookup_typed,
  conditional_or_differ, synth_term,
}
use ddl.Surface.Elaborate.Quiet.{Quiet-push_message, Quiet-to_surface}
use ddl.Surface.Elaborate.Sound.{
  core_context, IsInSync, Yields, Yields-pure, Yields-weaken, Yields-Quiet, Yields-eval,
  Yields-is_equal, Yields-field, Yields-force, ◌⇒◌,
}
use ddl.Surface.Elaborate.Sound.Names.{Gives, Yields-fail, Yields-synth_name}
use ddl.Surface.Elaborate.Sound.Direct.{IsDirect, AreDirect, IsNonempty, Accepts, Types}

-- A term of the sort, or an error.
abbrev pub IsSorted : Context → Sorted → Type 0
IsSorted c (t, some s) = HasType (core_context c) t (Value.sort s)
IsSorted c (t, none) = t ≡ Core.Term.error

module _ (host : Host) (fuel : ℕ) (synth : Term → Elaborates Typed)
    (check : Term → Value → Elaborates Core.Term) (c : Context) (synced : IsInSync c)
    (ks : (t : Term) → IsDirect t → Yields c (Types c t) (synth t))
    (kc : (t : Term) (v : Value) → IsDirect t → Yields c (Accepts c v) (check t v)) where
  Gives-error : Gives c error_typed
  Gives-error = (HasType-error, tt)

  Yields-fail_value :
      (v : Value) (message : Term → SurfaceToCoreMessage)
      → Yields c (Gives c) (fail_value host fuel v message)
  Yields-fail_value v message =
      Yields-Quiet (Quiet-to_surface host.display fuel v) ⇒ λ t _. Yields-fail c (message t)

  Yields-rejected :
      (v : Value) (message : Term → SurfaceToCoreMessage)
      → Yields c (λ t. t ≡ Core.Term.error) (reject_value host fuel v message)
  Yields-rejected v message = Yields-Quiet (Quiet-to_surface host.display fuel v) ⇒ λ t _.
      Yields-Quiet (Quiet-push_message _) ⇒ λ _ _. Yields-pure Core.Term.error refl

  -- The term of an error type is replaced by an error.
  Yields-sort :
      (t : Core.Term) (v : Value)
      → HasType (core_context c) t v
      → Yields c (IsSorted c) (sort_or_error host fuel synth check (t, v))
  Yields-sort t Value.error h = Yields-pure _ refl
  Yields-sort t (Value.sort s) h = Yields-pure _ h
  Yields-sort t v h = Yields-rejected v _ ⇒ λ u e. Yields-pure (u, none) e

  pub Yields-type :
      (t : Term) → IsDirect t → Yields c (IsSorted c) (elaborate_type host fuel synth check t)
  unfolding elaborate_type
  Yields-type t d = ks t d ⇒ λ r h. Yields-sort r.0 r.1 h.0

  Yields-annotate :
      (t : Term) (u : Core.Term) (s : Sort)
      → IsDirect t
      → HasType (core_context c) u (Value.sort s)
      → Yields c (Gives c) (annotate host fuel synth check t u)
  Yields-annotate t u s d h =
      Yields-eval fuel u ⇒ λ v e. kc t v d ⇒ λ w a. Yields-pure _ (HasType-ann w u s v h e a, tt)

  Yields-unless_error :
      (t : Term) (u : Core.Term)
      → Yields c (Gives c) (annotate host fuel synth check t u)
      → Yields c (Gives c) (annotate_or_error host fuel synth check t u)
  Yields-unless_error t Core.Term.error h = Yields-pure error_typed Gives-error
  Yields-unless_error t u h = h

  Yields-ann :
      (t : Term) (r : Sorted)
      → IsDirect t
      → IsSorted c r
      → Yields c (Gives c) (annotate_or_error host fuel synth check t r.0)
  Yields-ann t (u, some s) d h = Yields-unless_error t u (Yields-annotate t u s d h)
  Yields-ann t (u, none) d h = rw h (Yields-pure error_typed Gives-error)

  Gives-function :
      (r q : Sorted)
      → IsSorted c r
      → IsSorted c q
      → Gives c (function_or_error host fuel synth check r q)
  unfolding rule
  Gives-function (t, some s) (u, some s') h k = (HasType-function_type t u s s' h k, tt)
  Gives-function (t, some s) (u, none) h k = Gives-error
  Gives-function (t, none) q h k = Gives-error

  -- Some argument is left, or the head is in a form whose type is synthesized.
  abbrev Applies : Terms → Core.Term → Type 0
  Applies no_terms t = Infers t
  Applies (more_terms a ts) t = Unit {0}

  Applies-elim : (ts : Terms) (t u : Core.Term) → Applies ts (Core.Term.function_elim t u)
  Applies-elim no_terms t u = tt
  Applies-elim (more_terms a ts) t u = tt

  Yields-apply :
      (ts : Terms) (t : Core.Term) (v : Value)
      → AreDirect ts
      → HasType (core_context c) t v
      → Applies ts t
      → Yields c (Gives c) (apply_arguments host fuel synth check ts t v)
  unfolding apply_arguments
  Yields-apply no_terms t v d h i = Yields-pure (t, v) (h, i)
  Yields-apply (more_terms a ts) t (Value.function_type v w) d h i = kc a v d.0 ⇒ λ u k.
      Yields-apply ts (Core.Term.function_elim t u) w d.1 (HasType-function_elim t u v w h k)
        (Applies-elim ts t u)
  Yields-apply (more_terms a ts) t Value.error d h i = Yields-pure error_typed Gives-error
  Yields-apply (more_terms a ts) t v d h i = Yields-fail_value v _

  Applies-nonempty : (ts : Terms) (t : Core.Term) → IsNonempty ts → Applies ts t
  Applies-nonempty no_terms t n = absurd n
  Applies-nonempty (more_terms a ts) t n = tt

  Yields-found :
      (t : Core.Term) (v x : Value) (label : String) (ds : FieldDeclarations) (o : Option Value)
      → HasType (core_context c) t v
      → v ≢ Value.error
      → Checked.force_field_declarations v (core_context c) ≡ ok (some ds, core_context c)
      → EvaluatesTo (core_context c) t x
      → ((w : Value) → o ≡ some w → HasField (core_context c) ds x label w)
      → Yields c (Gives c) (lookup_or_missing host fuel synth check t v label o)
  Yields-found t v x label ds none h n f e k = Yields-fail_value v _
  Yields-found t v x label ds (some w) h n f e k =
      Yields-pure _ (HasType-struct_elim t v w x label ds h n f e (k w refl), tt)

  Yields-lookup_field :
      (t : Core.Term) (v : Value) (label : String) (o : Option FieldDeclarations)
      → HasType (core_context c) t v
      → v ≢ Value.error
      → Checked.force_field_declarations v (core_context c) ≡ ok (o, core_context c)
      → Yields c (Gives c) (lookup_field host fuel synth check t v label o)
  Yields-lookup_field t v label none h n f = Yields-fail_value v _
  Yields-lookup_field t v label (some ds) h n f = Yields-eval fuel t ⇒ λ x e.
      Yields-field fuel ds x label ⇒ λ o k. Yields-found t v x label ds o h n f e k

  Yields-lookup :
      (t : Core.Term) (v : Value) (label : String)
      → HasType (core_context c) t v
      → Yields c (Gives c) (lookup_typed host fuel synth check (t, v) label)
  Yields-lookup t Value.error label h = Yields-pure error_typed Gives-error
  Yields-lookup t v label h =
      Yields-force c v ⇒ λ o f. Yields-lookup_field t v label o h (λ e. cc) f

  Yields-conditional :
      (t : Core.Term) (r q : Typed) (b : Bool)
      → Accepts c (global_value "Bool") t
      → HasType (core_context c) r.0 r.1
      → HasType (core_context c) q.0 q.1
      → (b ≡ true → AreEqual (core_context c) r.1 q.1)
      → Yields c
          (λ p. HasType (core_context c) p.0 p.1)
          (conditional_or_differ host fuel synth check t r q b)
  Yields-conditional t (u, v) (u', v') true a h k e =
      Yields-pure _ (HasType-bool_elim t u u' v v' a h k (e refl))
  Yields-conditional t (u, v) (u', v') false a h k e =
      Yields-Quiet (Quiet-to_surface host.display fuel v) ⇒ λ x _.
      Yields-Quiet (Quiet-to_surface host.display fuel v') ⇒ λ y _.
      Yields-weaken (λ p g. g.0) (Yields-fail c _)

  -- A name, an annotation and the like: a type is synthesized where the core term is checked.
  given : (t : Term) (r : Typed) → Gives c r → Types c t r
  given t r g = (g.0, λ i. g.1)

  pub Yields-synth_term :
      (t : Term) → IsDirect t → Yields c (Types c t) (synth_term host fuel synth check t)
  unfolding synth_term
  Yields-synth_term (Term.name name) d =
      Yields-weaken (given (Term.name name)) (Yields-synth_name fuel c name synced)
  Yields-synth_term (Term.ann t u) d =
      Yields-weaken (given (Term.ann t u)) (Yields-type u d.1 ⇒ λ r h. Yields-ann t r d.0 h)
  Yields-synth_term Term.kind_type d = Yields-weaken (given Term.kind_type) (Yields-fail c _)
  Yields-synth_term Term.type_type d = Yields-pure _ (HasType-type, λ i. tt)
  Yields-synth_term (Term.function_type t u) d =
      Yields-weaken (given (Term.function_type t u)) (
        Yields-type t d.0 ⇒ λ r h.
        Yields-type u d.1 ⇒ λ q k. Yields-pure _ (Gives-function r q h k))
  Yields-synth_term (Term.function_elim t ts) d =
      Yields-weaken (given (Term.function_elim t ts))
        (ks t d.0 ⇒ λ r h. Yields-apply ts r.0 r.1 d.1.1 h.0 (Applies-nonempty ts r.0 d.1.0))
  Yields-synth_term (Term.struct_term fs) d = absurd d
  Yields-synth_term (Term.struct_elim t label) d =
      Yields-weaken (given (Term.struct_elim t label))
        (ks t d ⇒ λ r h. Yields-lookup r.0 r.1 label h.0)
  Yields-synth_term (Term.sequence_term ts) d =
      Yields-weaken (given (Term.sequence_term ts)) (Yields-fail c _)
  Yields-synth_term (Term.number_literal source) d =
      Yields-weaken (given (Term.number_literal source)) (Yields-fail c _)
  Yields-synth_term (Term.if_term t u w) d =
      Yields-weaken (λ r h. (h, λ i. absurd i))
        (kc t (global_value "Bool") d.0 ⇒ λ t' a. ks u d.1.0 ⇒ λ r h. ks w d.1.1 ⇒ λ q k.
          Yields-is_equal fuel r.1 q.1 ⇒ λ b e. Yields-conditional t' r q b a h.0 k.0 e)
  Yields-synth_term (Term.match_term t arms) d =
      Yields-weaken (given (Term.match_term t arms)) (Yields-fail c _)
  Yields-synth_term Term.format_type d = Yields-pure _ (HasType-format_type, λ i. tt)
  Yields-synth_term Term.repr d = Yields-pure _ (HasType-repr, λ i. tt)
  Yields-synth_term Term.error d = Yields-pure error_typed (HasType-error, λ i. tt)
