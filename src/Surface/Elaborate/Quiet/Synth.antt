-- ===== src/Surface/Elaborate/Quiet/Synth.antt =====
-- fathom/src/pass/surface_to_core.rs: elaborating a term leaves the environments of the context as
-- they are.
use ddl.Prelude.{ℕ, zero, suc, String, Bool, true, false, Option, some, none}
use ddl.Outcome.Post.{expires}
use ddl.Outcome.Steps.{Steps-reads, ◌⟫◌}
use ddl.Core.Term as Core
use ddl.Core.Term.{Sort}
use ddl.Core.Semantics.Value.{Value, global_value}
use ddl.Core.Semantics.Eval
use ddl.Core.Semantics.Fields.{FieldDeclarations, get_field_type}
use ddl.Surface.Term.{Term, Terms, no_terms, more_terms}
use ddl.Surface.Elaborate.Context.{Elaborates}
use ddl.Surface.Elaborate.Host.{Host, Typed}
use ddl.Surface.Elaborate.Synth.{
  error_typed, sort_or_error, elaborate_type, annotate_or_error, apply_arguments, lookup_or_missing,
  lookup_field, lookup_typed, conditional_or_differ, synth_term,
}
use ddl.Surface.Elaborate.Judgements.{synth_type, check_type, is_type}
use ddl.Surface.Elaborate.Quiet.{
  Quiet, Quiet-pure, Quiet-force, Quiet-eval, Quiet-is_equal, Quiet-to_surface, Quiet-fail,
  Quiet-reject_value, Quiet-fail_value, Quiet-synth_name,
}
use ddl.Surface.Elaborate.Quiet.Arms.{Quiet-check_term}

module _ (host : Host) (fuel : ℕ) (synth : Term → Elaborates Typed)
    (check : Term → Value → Elaborates Core.Term) (ks : (t : Term) → Quiet (synth t))
    (kc : (t : Term) (v : Value) → Quiet (check t v)) where
  Quiet-sort_or_error :
      (t : Core.Term) (v : Value) → Quiet (sort_or_error host fuel synth check (t, v))
  Quiet-sort_or_error t Value.error = Quiet-pure _
  Quiet-sort_or_error t (Value.sort s) = Quiet-pure _
  Quiet-sort_or_error t v = Quiet-reject_value host fuel v _ ⟫ λ u. Quiet-pure _

  pub Quiet-elaborate_type : (t : Term) → Quiet (elaborate_type host fuel synth check t)
  unfolding elaborate_type
  Quiet-elaborate_type t = ks t ⟫ λ r. Quiet-sort_or_error r.0 r.1

  Quiet-annotate : (t : Term) (u : Core.Term) → Quiet (annotate_or_error host fuel synth check t u)
  Quiet-annotate t Core.Term.error = Quiet-pure error_typed
  Quiet-annotate t u = Quiet-eval fuel u ⟫ λ v. kc t v ⟫ λ w. Quiet-pure _

  Quiet-apply :
      (ts : Terms) (t : Core.Term) (v : Value)
      → Quiet (apply_arguments host fuel synth check ts t v)
  unfolding apply_arguments
  Quiet-apply no_terms t v = Quiet-pure _
  Quiet-apply (more_terms a ts) t (Value.function_type v w) =
      kc a v ⟫ λ u. Quiet-apply ts (Core.Term.function_elim t u) w
  Quiet-apply (more_terms a ts) t Value.error = Quiet-pure error_typed
  Quiet-apply (more_terms a ts) t v = Quiet-fail_value host fuel v _

  Quiet-lookup_or_missing :
      (t : Core.Term) (v : Value) (label : String) (o : Option Value)
      → Quiet (lookup_or_missing host fuel synth check t v label o)
  Quiet-lookup_or_missing t v label (some w) = Quiet-pure _
  Quiet-lookup_or_missing t v label none = Quiet-fail_value host fuel v _

  Quiet-lookup_field :
      (t : Core.Term) (v : Value) (label : String) (o : Option FieldDeclarations)
      → Quiet (lookup_field host fuel synth check t v label o)
  Quiet-lookup_field t v label none = Quiet-fail_value host fuel v _
  Quiet-lookup_field t v label (some d) = Quiet-eval fuel t ⟫ λ w.
      Steps-reads (λ c. get_field_type (Eval.eval fuel c.globals c.item_definitions) d w label)
      ⟫ λ o. Quiet-lookup_or_missing t v label o

  Quiet-lookup :
      (t : Core.Term) (v : Value) (label : String)
      → Quiet (lookup_typed host fuel synth check (t, v) label)
  Quiet-lookup t Value.error label = Quiet-pure error_typed
  Quiet-lookup t v label = Quiet-force v ⟫ λ o. Quiet-lookup_field t v label o

  Quiet-conditional :
      (t : Core.Term) (r q : Typed) (b : Bool)
      → Quiet (conditional_or_differ host fuel synth check t r q b)
  Quiet-conditional t (u, v) (u', v') true = Quiet-pure _
  Quiet-conditional t (u, v) (u', v') false = Quiet-to_surface host.display fuel v ⟫ λ _.
      Quiet-to_surface host.display fuel v' ⟫ λ _. Quiet-fail _

  Quiet-synth_term : (t : Term) → Quiet (synth_term host fuel synth check t)
  unfolding synth_term
  Quiet-synth_term (Term.name name) = Quiet-synth_name fuel name
  Quiet-synth_term (Term.ann t u) = Quiet-elaborate_type u ⟫ λ r. Quiet-annotate t r.0
  Quiet-synth_term Term.kind_type = Quiet-fail _
  Quiet-synth_term Term.type_type = Quiet-pure _
  Quiet-synth_term (Term.function_type t u) =
      Quiet-elaborate_type t ⟫ λ r. Quiet-elaborate_type u ⟫ λ q. Quiet-pure _
  Quiet-synth_term (Term.function_elim t ts) = ks t ⟫ λ r. Quiet-apply ts r.0 r.1
  Quiet-synth_term (Term.struct_term fs) = Quiet-fail _
  Quiet-synth_term (Term.struct_elim t label) = ks t ⟫ λ r. Quiet-lookup r.0 r.1 label
  Quiet-synth_term (Term.sequence_term ts) = Quiet-fail _
  Quiet-synth_term (Term.number_literal source) = Quiet-fail _
  Quiet-synth_term (Term.if_term t u w) = kc t (global_value "Bool") ⟫ λ t'.
      ks u ⟫ λ r. ks w ⟫ λ q. Quiet-is_equal fuel r.1 q.1 ⟫ λ b. Quiet-conditional t' r q b
  Quiet-synth_term (Term.match_term t arms) = Quiet-fail _
  Quiet-synth_term Term.format_type = Quiet-pure _
  Quiet-synth_term Term.repr = Quiet-pure _
  Quiet-synth_term Term.error = Quiet-pure error_typed

module _ (host : Host) where
  Quiet-both :
      (fuel : ℕ)
      → ((t : Term) → Quiet (synth_type host fuel t))
        × ((t : Term) (v : Value) → Quiet (check_type host fuel t v))
  unfolding synth_type
  Quiet-both zero = (λ t. record { apply = λ c. expires }, λ t v. record { apply = λ c. expires })
  Quiet-both (suc fuel) =
      let (ks, kc) = Quiet-both fuel in
      (
        λ t. record { apply = (Quiet-synth_term host fuel _ _ ks kc t).apply },
        λ t v. record { apply = (Quiet-check_term host fuel _ _ ks kc t v).apply },
      )

  pub Quiet-synth_type : (fuel : ℕ) (t : Term) → Quiet (synth_type host fuel t)
  Quiet-synth_type fuel t = (Quiet-both fuel).0 t

  pub Quiet-check_type : (fuel : ℕ) (t : Term) (v : Value) → Quiet (check_type host fuel t v)
  Quiet-check_type fuel t v = (Quiet-both fuel).1 t v

  pub Quiet-is_type : (fuel : ℕ) (t : Term) → Quiet (is_type host fuel t)
  unfolding is_type
  Quiet-is_type fuel t =
      Quiet-elaborate_type host fuel _ _ (Quiet-synth_type fuel) (Quiet-check_type fuel) t
