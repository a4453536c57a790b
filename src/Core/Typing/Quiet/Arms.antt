-- ===== src/Core/Typing/Quiet/Arms.antt =====
-- fathom/src/lang/core/typing.rs: the arms of `check_type` only add messages.
use ddl.Prelude.{ℕ, String, List, [], ◌∷◌, Bool, true, false, Option, some, none}
use ddl.Outcome.Post.{Ends, returns, Ends-bind, Ends-weaken}
use ddl.Core.Term.{
  Term, Terms, Branches, FieldDefinitions, no_terms, more_terms, no_branches, branch, get_entry,
}
use ddl.Core.Semantics.Value.{Value, global_value}
use ddl.Core.Semantics.Fields.{FieldDeclarations}
use ddl.Core.Semantics.Fields.Keeps.{for_each_field-Ends}
use ddl.Core.Typing.Message.{
  CoreTypingMessage, duplicate_struct_fields, missing_struct_fields, unexpected_struct_fields,
}
use ddl.Core.Typing.Context.{Context, Checks}
use ddl.Core.Typing.Terms.{
  StructCheck, unless_empty, sort_or_mismatch, sort_of, check_pending, check_field, report_fields,
  check_declared, check_struct_fields, check_struct_term, check_elems, mismatch, check_length,
  check_array, check_branches, check_equal, check_synth, check_data, unless_error, check_term,
  array_type,
}
use ddl.Core.Typing.Quiet.{
  Appends, Appends-refl, Appends-trans, Quiet, Quiet-pure, ◌⟫◌, Quiet-push_message, Quiet-force,
  Quiet-eval, Quiet-read_back, Quiet-is_equal,
}

Quiet-unless_empty :
    (labels : List String) (message : CoreTypingMessage) → Quiet (unless_empty labels message)
Quiet-unless_empty [] message = Quiet-pure tt
Quiet-unless_empty (_ ∷ _) message = Quiet-push_message message

module _ (fuel : ℕ) (synth : Term → Checks Value) (check : Term → Value → Checks (Unit {0}))
    (ks : (t : Term) → Quiet (synth t)) (kc : (t : Term) (v : Value) → Quiet (check t v)) where
  Quiet-sort_or_mismatch : (v : Value) → Quiet (sort_or_mismatch fuel synth check v)
  Quiet-sort_or_mismatch Value.error = Quiet-pure none
  Quiet-sort_or_mismatch (Value.sort s) = Quiet-pure (some s)
  Quiet-sort_or_mismatch v =
      Quiet-read_back fuel v ⟫ λ t. Quiet-push_message _ ⟫ λ _. Quiet-pure none

  pub Quiet-sort_of : (t : Term) → Quiet (sort_of fuel synth check t)
  unfolding sort_of
  Quiet-sort_of t = ks t ⟫ Quiet-sort_or_mismatch

  pub Quiet-mismatch : (v w : Value) → Quiet (mismatch fuel synth check v w)
  unfolding mismatch
  Quiet-mismatch v w =
      Quiet-read_back fuel v ⟫ λ t. Quiet-read_back fuel w ⟫ λ u. Quiet-push_message _

  check_pending-Appends :
      (c : Context) (label : String) (found : Option Term) (type' : Option Value) (s : StructCheck)
      → Appends c s.context
      → Ends (λ r. Appends c r.1.context) (check_pending fuel synth check label found type' s)
  check_pending-Appends c label (some t) (some v) s h =
      Ends-bind ((kc t v ⟫ λ _. Quiet-eval fuel t).apply s.context)
        λ r k. returns (Appends-trans c s.context r.1 h k)
  check_pending-Appends c label (some t) none s h = returns h
  check_pending-Appends c label none _ s h = returns h

  Quiet-report : (ds ms us : List String) → Quiet (report_fields fuel synth check ds ms us)
  Quiet-report ds ms us = Quiet-unless_empty ds (duplicate_struct_fields ds) ⟫ λ _.
      Quiet-unless_empty ms (missing_struct_fields ms) ⟫ λ _.
      Quiet-unless_empty us (unexpected_struct_fields us)

  Quiet-check_declared :
      (pending : List (String × Term)) (ds : List String) (declarations : FieldDeclarations)
      → Quiet (check_declared fuel synth check pending ds declarations)
  Quiet-check_declared pending ds declarations = record {
    apply = λ c.
        Ends-bind
          (for_each_field-Ends (λ (s : StructCheck). Appends c s.context) _
            (check_field fuel synth check)
            (λ label type' s h. check_pending-Appends c label (get_entry s.pending label) type' _ h)
            declarations (record { pending = pending; missing = []; context = c }) (Appends-refl c))
          λ s h.
            Ends-weaken (λ r k. Appends-trans c s.context r.1 h k)
              ((Quiet-report ds s.missing _).apply s.context);
  }

  Quiet-struct_fields :
      (fs : FieldDefinitions) (v : Value) (declarations : Option FieldDeclarations)
      → Quiet (check_struct_fields fuel synth check fs v declarations)
  Quiet-struct_fields fs v none = Quiet-read_back fuel v ⟫ λ t. Quiet-push_message _
  Quiet-struct_fields fs v (some d) = Quiet-check_declared _ _ d

  Quiet-struct_term :
      (fs : FieldDefinitions) (v : Value) → Quiet (check_struct_term fuel synth check fs v)
  unfolding check_struct_term
  Quiet-struct_term fs v = Quiet-force v ⟫ Quiet-struct_fields fs v

  Quiet-elems : (ts : Terms) (v : Value) → Quiet (check_elems fuel synth check ts v)
  unfolding check_elems
  Quiet-elems no_terms v = Quiet-pure tt
  Quiet-elems (more_terms t ts) v = kc t v ⟫ λ _. Quiet-elems ts v

  Quiet-length :
      (ts : Terms) (v w : Value) (b : Bool) → Quiet (check_length fuel synth check ts v w b)
  Quiet-length ts v w true = Quiet-pure tt
  Quiet-length ts v w false = Quiet-mismatch v _

  Quiet-array :
      (ts : Terms) (v : Value) (o : Option (Value × Value))
      → Quiet (check_array fuel synth check ts v o)
  Quiet-array ts v none = Quiet-read_back fuel v ⟫ λ t. Quiet-push_message _
  Quiet-array ts v (some (n, w)) = Quiet-elems ts w ⟫ λ _. Quiet-length ts v w _

  Quiet-branches : (bs : Branches) (v : Value) → Quiet (check_branches fuel synth check bs v)
  unfolding check_branches
  Quiet-branches no_branches v = Quiet-pure tt
  Quiet-branches (branch k t bs) v = kc t v ⟫ λ _. Quiet-branches bs v

  Quiet-equal : (v w : Value) (b : Bool) → Quiet (check_equal fuel synth check v w b)
  Quiet-equal v w true = Quiet-pure tt
  Quiet-equal v w false = Quiet-mismatch v w

  Quiet-check_synth : (t : Term) (v : Value) → Quiet (check_synth fuel synth check t v)
  unfolding check_synth
  Quiet-check_synth t v = ks t ⟫ λ w. Quiet-is_equal fuel w v ⟫ Quiet-equal v w

  Quiet-check_data : (t : Term) (v : Value) → Quiet (check_data fuel synth check t v)
  unfolding check_data
  Quiet-check_data Term.error v = Quiet-pure tt
  Quiet-check_data (Term.struct_term fs) v = Quiet-struct_term fs v
  Quiet-check_data (Term.array_term ts) v = Quiet-array ts v (array_type v)
  Quiet-check_data (Term.bool_elim t u w) v = kc t (global_value "Bool") ⟫ λ _. kc u v ⟫ λ _. kc w v
  Quiet-check_data (Term.int_elim t bs u) v =
      kc t (global_value "Int") ⟫ λ _. Quiet-branches bs v ⟫ λ _. kc u v
  Quiet-check_data t v = Quiet-check_synth t v

  Quiet-unless_error :
      (v : Value) (m : Checks (Unit {0})) → Quiet m → Quiet (unless_error fuel synth check v m)
  Quiet-unless_error Value.error m h = Quiet-pure tt
  Quiet-unless_error _ m h = h

  pub Quiet-check_term : (t : Term) (v : Value) → Quiet (check_term fuel synth check t v)
  unfolding check_term
  Quiet-check_term t v = Quiet-unless_error v _ (Quiet-check_data t v)
