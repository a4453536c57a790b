-- ===== src/Surface/Elaborate/Quiet/Arms.antt =====
-- fathom/src/pass/surface_to_core.rs: the arms of `check_type` only add messages.
use text.Mathlib.Text.{◌==◌ as str_eq}
use ddl.Prelude.{ℕ, String, List, [], ◌∷◌, Bool, true, false, Option, some, none, if◌then◌else◌}
use ddl.Prelude.Int.{ℤ}
use ddl.Outcome.Post.{Ends, returns, Ends-bind, Ends-weaken}
use ddl.Outcome.Steps.{◌⟫◌}
use ddl.Location.{generated}
use ddl.Literal.Parse.{number_to_big_int}
use ddl.Core.Term as Core
use ddl.Core.Term.{Primitive}
use ddl.Literal.Parse.{Parses}
use ddl.Surface.Elaborate.Check.{elaborate_literal, primitive_or_error}
use ddl.Core.Term.{get_branch, get_entry}
use ddl.Core.Semantics.Value.{Head, Value, stuck, no_elims, global_value}
use ddl.Core.Semantics.Fields.{FieldDeclarations}
use ddl.Core.Semantics.Fields.Keeps.{for_each_field-Ends}
use ddl.Core.Typing.Terms.{array_type}
use ddl.Surface.Term.{
  Term, Terms, FieldDefinitions, Pattern, Arms, no_terms, more_terms, no_arms, arm,
}
use ddl.Surface.Elaborate.Message.{SurfaceToCoreMessage}
use ddl.Surface.Elaborate.Context.{Context, Elaborates}
use ddl.Surface.Elaborate.Host.{Host, Typed}
use ddl.Surface.Elaborate.Structs.{
  StructState, report_labels, unless_problems, elaborate_pending, elaborate_field, report_problems,
  elaborate_declared, elaborate_definitions, elaborate_struct_term,
}
use ddl.Surface.Elaborate.Match.{
  place_new, place_branch, place_default, default_or_error, from_int_branches, match_named,
  match_head,
}
use ddl.Surface.Elaborate.Check.{
  elaborate_elems, array_or_mismatch, elaborate_sequence, number_named, elaborate_number,
  equal_or_differ, elaborate_synth, elaborate_data, unless_error_type, check_term,
}
use ddl.Surface.Elaborate.Quiet.{
  Appends, Appends-refl, Appends-trans, Quiet, Quiet-pure, Quiet-push_message, Quiet-parses,
  Quiet-force, Quiet-eval, Quiet-is_equal, Quiet-to_surface, Quiet-reject, Quiet-reject_value,
}

pub Quiet-if :
    {A : Type 0} (b : Bool) {m n : Elaborates A} → Quiet m → Quiet n → Quiet (if b then m else n)
Quiet-if true h k = h
Quiet-if false h k = k

Quiet-report :
    (labels : List String) (message : List String → SurfaceToCoreMessage)
    → Quiet (report_labels labels message)
Quiet-report [] message = Quiet-pure tt
Quiet-report (_ ∷ _) message = Quiet-push_message _

Quiet-unless_problems :
    (ds ms us : List String) (t : Core.Term) → Quiet (unless_problems ds ms us t)
Quiet-unless_problems [] [] [] t = Quiet-pure t
Quiet-unless_problems [] [] (_ ∷ _) t = Quiet-pure Core.Term.error
Quiet-unless_problems [] (_ ∷ _) us t = Quiet-pure Core.Term.error
Quiet-unless_problems (_ ∷ _) ms us t = Quiet-pure Core.Term.error

Quiet-place_new :
    (n : ℤ) (t : Core.Term) (bs : Core.Branches) (o : Option Core.Term) → Quiet (place_new n t bs o)
Quiet-place_new n t bs none = Quiet-pure _
Quiet-place_new n t bs (some _) = Quiet-push_message _ ⟫ λ _. Quiet-pure bs

Quiet-place_branch :
    (n : Option ℤ) (t : Core.Term) (bs : Core.Branches) (o : Option Core.Term)
    → Quiet (place_branch n t bs o)
Quiet-place_branch none t bs o = Quiet-pure bs
Quiet-place_branch (some n) t bs none = Quiet-place_new n t bs (get_branch bs n)
Quiet-place_branch (some n) t bs (some _) = Quiet-push_message _ ⟫ λ _. Quiet-pure bs

Quiet-place_default : (t : Core.Term) (o : Option Core.Term) → Quiet (place_default t o)
Quiet-place_default t none = Quiet-pure (some t)
Quiet-place_default t (some u) = Quiet-push_message _ ⟫ λ _. Quiet-pure (some u)

Quiet-default : (o : Option Core.Term) → Quiet (default_or_error o)
Quiet-default (some t) = Quiet-pure t
Quiet-default none = Quiet-push_message _ ⟫ λ _. Quiet-pure Core.Term.error

module _ (host : Host) (fuel : ℕ) (check : Term → Value → Elaborates Core.Term)
    (kc : (t : Term) (v : Value) → Quiet (check t v)) where
  elaborate_pending-Appends :
      (c : Context) (label : String) (found : Option Term) (type' : Option Value) (s : StructState)
      → Appends c s.context
      → Ends (λ r. Appends c r.1.context) (elaborate_pending host fuel check label found type' s)
  elaborate_pending-Appends c label (some t) (some v) s h =
      Ends-bind ((kc t v).apply s.context) λ r k.
        Ends-bind ((Quiet-eval fuel r.0).apply r.1)
          λ q l. returns (Appends-trans c r.1 q.1 (Appends-trans c s.context r.1 h k) l)
  elaborate_pending-Appends c label (some t) none s h = returns h
  elaborate_pending-Appends c label none _ s h = returns h

  Quiet-problems :
      (ds ms us : List String) (t : Core.Term) → Quiet (report_problems host fuel check ds ms us t)
  Quiet-problems ds ms us t = Quiet-report ds _ ⟫ λ _.
      Quiet-report ms _ ⟫ λ _. Quiet-report us _ ⟫ λ _. Quiet-unless_problems ds ms us t

  Quiet-declared :
      (pending : List (String × Term)) (ds : List String) (declarations : FieldDeclarations)
      → Quiet (elaborate_declared host fuel check pending ds declarations)
  Quiet-declared pending ds declarations = record {
    apply = λ c.
        Ends-bind
          (for_each_field-Ends (λ (s : StructState). Appends c s.context) _
            (elaborate_field host fuel check)
            (λ label type' s h.
              elaborate_pending-Appends c label (get_entry s.pending label) type' _ h)
            declarations (record { pending = pending; elaborated = []; missing = []; context = c })
            (Appends-refl c))
          λ s h.
            Ends-weaken (λ r k. Appends-trans c s.context r.1 h k)
              ((Quiet-problems ds s.missing _ _).apply s.context);
  }

  Quiet-definitions :
      (fs : FieldDefinitions) (v : Value) (o : Option FieldDeclarations)
      → Quiet (elaborate_definitions host fuel check fs v o)
  Quiet-definitions fs v none = Quiet-reject_value host fuel v _
  Quiet-definitions fs v (some d) = Quiet-declared _ _ d

  Quiet-struct_term :
      (fs : FieldDefinitions) (v : Value) → Quiet (elaborate_struct_term host fuel check fs v)
  unfolding elaborate_struct_term
  Quiet-struct_term fs v = Quiet-force v ⟫ λ o. Quiet-definitions fs v o

  Quiet-branches :
      (v : Value) (arms : Arms) (bs : Core.Branches) (o : Option Core.Term)
      → Quiet (from_int_branches host fuel check v arms bs o)
  unfolding from_int_branches
  Quiet-branches v no_arms bs o = Quiet-default o ⟫ λ t. Quiet-pure _
  Quiet-branches v (arm (Pattern.number_literal source) t rest) bs o = kc t v ⟫ λ u.
      Quiet-parses (number_to_big_int generated host.lexers (host.lexer source)) ⟫ λ n.
      Quiet-place_branch n u bs o ⟫ λ bs'. Quiet-branches v rest bs' o
  Quiet-branches v (arm (Pattern.name _) t rest) bs o =
      kc t v ⟫ λ u. Quiet-place_default u o ⟫ λ o'. Quiet-branches v rest bs o'

  Quiet-match_named :
      (name : String) (t : Core.Term) (w : Value) (arms : Arms) (v : Value)
      → Quiet (match_named host fuel check name t w arms v)
  Quiet-match_named name t w arms v =
      Quiet-if (str_eq name "Bool") (Quiet-push_message _ ⟫ λ _. Quiet-pure Core.Term.error) (
        Quiet-if (str_eq name "Int")
          (Quiet-branches v arms Core.Branches.no_branches none ⟫ λ r. Quiet-pure _)
          (Quiet-reject_value host fuel w _))

  Quiet-match_head :
      (t : Core.Term) (w : Value) (arms : Arms) (v : Value)
      → Quiet (match_head host fuel check (t, w) arms v)
  Quiet-match_head t Value.error arms v = Quiet-pure Core.Term.error
  Quiet-match_head t (stuck (Head.global name) no_elims) arms v = Quiet-match_named name t _ arms v
  Quiet-match_head t w arms v = Quiet-reject_value host fuel w _

Quiet-literal :
    {A : Type 0} (primitive : A → Primitive) (m : Parses A) → Quiet (elaborate_literal primitive m)
unfolding elaborate_literal
Quiet-literal primitive m = Quiet-parses m ⟫ λ o. Quiet-pure (primitive_or_error primitive o)

module _ (host : Host) (fuel : ℕ) (synth : Term → Elaborates Typed)
    (check : Term → Value → Elaborates Core.Term) (ks : (t : Term) → Quiet (synth t))
    (kc : (t : Term) (v : Value) → Quiet (check t v)) where
  Quiet-elems : (ts : Terms) (v : Value) → Quiet (elaborate_elems host fuel synth check ts v)
  unfolding elaborate_elems
  Quiet-elems no_terms v = Quiet-pure _
  Quiet-elems (more_terms t ts) v = kc t v ⟫ λ u. Quiet-elems ts v ⟫ λ us. Quiet-pure _

  Quiet-array :
      (n : ℕ) (us : Core.Terms) (v : Value) (b : Bool)
      → Quiet (array_or_mismatch host fuel synth check n us v b)
  Quiet-array n us v true = Quiet-pure _
  Quiet-array n us v false = Quiet-reject_value host fuel v _

  Quiet-sequence :
      (ts : Terms) (v : Value) (o : Option (Value × Value))
      → Quiet (elaborate_sequence host fuel synth check ts v o)
  Quiet-sequence ts v none = Quiet-reject_value host fuel v _
  Quiet-sequence ts v (some (len, w)) = Quiet-elems ts w ⟫ λ us. Quiet-array _ us len _

  Quiet-number_named :
      (name source : String) (v : Value) → Quiet (number_named host fuel synth check name source v)
  Quiet-number_named name source v = Quiet-if (str_eq name "Int") (Quiet-literal _ _) (
      Quiet-if (str_eq name "F32") (Quiet-literal _ _)
        (Quiet-if (str_eq name "F64") (Quiet-literal _ _) (Quiet-reject_value host fuel v _)))

  Quiet-number :
      (source : String) (v : Value) → Quiet (elaborate_number host fuel synth check source v)
  Quiet-number source (stuck (Head.global name) no_elims) = Quiet-number_named name source _
  Quiet-number source v = Quiet-reject_value host fuel v _

  Quiet-equal :
      (t : Core.Term) (v w : Value) (b : Bool)
      → Quiet (equal_or_differ host fuel synth check t v w b)
  Quiet-equal t v w true = Quiet-pure t
  Quiet-equal t v w false = Quiet-to_surface host.display fuel v ⟫ λ _.
      Quiet-to_surface host.display fuel w ⟫ λ _. Quiet-reject _

  Quiet-elaborate_synth : (t : Term) (v : Value) → Quiet (elaborate_synth host fuel synth check t v)
  unfolding elaborate_synth
  Quiet-elaborate_synth t v = ks t ⟫ λ r. Quiet-is_equal fuel r.1 v ⟫ λ b. Quiet-equal r.0 v r.1 b

  Quiet-data : (t : Term) (v : Value) → Quiet (elaborate_data host fuel synth check t v)
  unfolding elaborate_data
  Quiet-data Term.error v = Quiet-pure Core.Term.error
  Quiet-data (Term.struct_term fs) v = Quiet-struct_term host fuel check kc fs v
  Quiet-data (Term.sequence_term ts) v = Quiet-sequence ts v (array_type v)
  Quiet-data (Term.number_literal source) v = Quiet-number source v
  Quiet-data (Term.if_term t u w) v =
      kc t (global_value "Bool") ⟫ λ _. kc u v ⟫ λ _. kc w v ⟫ λ _. Quiet-pure _
  Quiet-data (Term.match_term t arms) v =
      ks t ⟫ λ r. Quiet-match_head host fuel check kc r.0 r.1 arms v
  Quiet-data t v = Quiet-elaborate_synth t v

  Quiet-unless_error :
      (v : Value) (m : Elaborates Core.Term)
      → Quiet m
      → Quiet (unless_error_type host fuel synth check v m)
  Quiet-unless_error Value.error m h = Quiet-pure Core.Term.error
  Quiet-unless_error _ m h = h

  pub Quiet-check_term : (t : Term) (v : Value) → Quiet (check_term host fuel synth check t v)
  unfolding check_term
  Quiet-check_term t v = Quiet-unless_error v _ (Quiet-data t v)
