-- ===== src/Core/Typing/Quiet/Check.antt =====
-- fathom/src/lang/core/typing.rs: checking a term leaves the environments of the context as they are.
use ddl.Prelude.{ℕ, zero, suc, String, Bool, true, false, Option, some, none, ◌≡◌}
use ddl.Outcome.{ok}
use ddl.Outcome.Post.{expires, Ends-ok}
use ddl.Core.Term.{Term, Sort, get_entry}
use ddl.Core.Semantics.Value.{Value, global_value}
use ddl.Core.Semantics.Fields.{FieldDeclarations}
use ddl.Core.Typing.Message.{CoreTypingMessage}
use ddl.Core.Typing.Context.{Context, Checks, get_local_type}
use ddl.Core.Globals
use ddl.Core.Typing.Terms.{
  fail, type_or_error, apply_type, no_field, field_or_none, field_of, synth_field, synth_global,
  type_or_fail, synth_sort_of, branch_type, synth_term,
}
use ddl.Core.Typing.Judgements.{synth_type, check_type, synth_sort}
use ddl.Core.Typing.Quiet.{
  Appends, Quiet, Quiet-pure, Quiet-reads, ◌⟫◌, Quiet-push_message, Quiet-force, Quiet-eval,
  Quiet-read_back, Quiet-is_equal,
}
use ddl.Core.Typing.Quiet.Arms.{Quiet-sort_of, Quiet-mismatch, Quiet-check_term}

Quiet-fail : (message : CoreTypingMessage) → Quiet (fail message)
Quiet-fail message = Quiet-push_message message ⟫ λ _. Quiet-pure Value.error

module _ (fuel : ℕ) (synth : Term → Checks Value) (check : Term → Value → Checks (Unit {0}))
    (ks : (t : Term) → Quiet (synth t)) (kc : (t : Term) (v : Value) → Quiet (check t v)) where
  Quiet-type_or_error :
      (o : Option Sort) (m : Checks Value) → Quiet m → Quiet (type_or_error fuel synth check o m)
  Quiet-type_or_error none m h = Quiet-pure Value.error
  Quiet-type_or_error (some s) m h = h

  Quiet-apply_type : (t : Term) (v : Value) → Quiet (apply_type fuel synth check t v)
  Quiet-apply_type t (Value.function_type v w) = kc t v ⟫ λ _. Quiet-pure w
  Quiet-apply_type t Value.error = Quiet-pure Value.error
  Quiet-apply_type t v = Quiet-read_back fuel v ⟫ λ u. Quiet-fail _

  Quiet-no_field : (v : Value) (label : String) → Quiet (no_field fuel synth check v label)
  Quiet-no_field v label = Quiet-read_back fuel v ⟫ λ u. Quiet-fail _

  Quiet-field_or_none :
      (v : Value) (label : String) (o : Option Value)
      → Quiet (field_or_none fuel synth check v label o)
  Quiet-field_or_none v label (some w) = Quiet-pure w
  Quiet-field_or_none v label none = Quiet-no_field v label

  Quiet-field_of :
      (t : Term) (v : Value) (label : String) (o : Option FieldDeclarations)
      → Quiet (field_of fuel synth check t v label o)
  Quiet-field_of t v label none = Quiet-no_field v label
  Quiet-field_of t v label (some d) =
      Quiet-eval fuel t ⟫ λ w. Quiet-reads _ ⟫ Quiet-field_or_none v label

  Quiet-synth_field :
      (t : Term) (label : String) (v : Value) → Quiet (synth_field fuel synth check t label v)
  Quiet-synth_field t label Value.error = Quiet-pure Value.error
  Quiet-synth_field t label v = Quiet-force v ⟫ Quiet-field_of t v label

  Quiet-synth_global :
      (name : String) (o : Option (Term × Option Term))
      → Quiet (synth_global fuel synth check name o)
  Quiet-synth_global name (some (t, _)) = Quiet-eval fuel t
  Quiet-synth_global name none = Quiet-fail _

  Quiet-type_or_fail :
      (message : CoreTypingMessage) (o : Option Value)
      → Quiet (type_or_fail fuel synth check message o)
  Quiet-type_or_fail message (some v) = Quiet-pure v
  Quiet-type_or_fail message none = Quiet-fail message

  Quiet-sort : (o : Option Sort) → Quiet (synth_sort_of fuel synth check o)
  Quiet-sort (some s) = Quiet-pure (Value.sort s)
  Quiet-sort none = Quiet-fail _

  Quiet-branch_type : (v w : Value) (b : Bool) → Quiet (branch_type fuel synth check v w b)
  Quiet-branch_type v w true = Quiet-pure v
  Quiet-branch_type v w false =
      Quiet-mismatch fuel synth check ks kc v w ⟫ λ _. Quiet-pure Value.error

  pub Quiet-synth_term : (t : Term) → Quiet (synth_term fuel synth check t)
  unfolding synth_term
  Quiet-synth_term (Term.global name) = record {
    apply = λ c. (Quiet-synth_global name (Globals.get c.globals name)).apply c;
  }
  Quiet-synth_term (Term.item name) = record {
    apply = λ c. (Quiet-type_or_fail _ (get_entry c.item_declarations name)).apply c;
  }
  Quiet-synth_term (Term.local index) = record {
    apply = λ c. (Quiet-type_or_fail _ (get_local_type c index)).apply c;
  }
  Quiet-synth_term (Term.ann t u) = Quiet-sort_of fuel synth check ks kc u ⟫ λ s.
      Quiet-type_or_error s _ (Quiet-eval fuel u ⟫ λ v. kc t v ⟫ λ _. Quiet-pure v)
  Quiet-synth_term (Term.sort s) = Quiet-sort _
  Quiet-synth_term (Term.function_type t u) = Quiet-sort_of fuel synth check ks kc t ⟫ λ r.
      Quiet-sort_of fuel synth check ks kc u ⟫ λ s. Quiet-pure _
  Quiet-synth_term (Term.function_elim t u) = ks t ⟫ Quiet-apply_type u
  Quiet-synth_term (Term.struct_term fs) = Quiet-fail _
  Quiet-synth_term (Term.struct_elim t label) = ks t ⟫ Quiet-synth_field t label
  Quiet-synth_term (Term.array_term ts) = Quiet-fail _
  Quiet-synth_term (Term.primitive p) = Quiet-pure _
  Quiet-synth_term (Term.bool_elim t u w) = kc t (global_value "Bool") ⟫ λ _.
      ks u ⟫ λ v. ks w ⟫ λ v'. Quiet-is_equal fuel v v' ⟫ Quiet-branch_type v v'
  Quiet-synth_term (Term.int_elim t bs u) = Quiet-fail _
  Quiet-synth_term Term.format_type = Quiet-pure _
  Quiet-synth_term Term.repr = Quiet-pure _
  Quiet-synth_term Term.error = Quiet-pure Value.error

Quiet-both :
    (fuel : ℕ)
    → ((t : Term) → Quiet (synth_type fuel t))
      × ((t : Term) (v : Value) → Quiet (check_type fuel t v))
unfolding synth_type
Quiet-both zero = (λ t. record { apply = λ c. expires }, λ t v. record { apply = λ c. expires })
Quiet-both (suc fuel) =
    let (ks, kc) = Quiet-both fuel in
    (
      λ t. record { apply = (Quiet-synth_term fuel _ _ ks kc t).apply },
      λ t v. record { apply = (Quiet-check_term fuel _ _ ks kc t v).apply },
    )

pub Quiet-synth_type : (fuel : ℕ) (t : Term) → Quiet (synth_type fuel t)
Quiet-synth_type fuel t = (Quiet-both fuel).0 t

pub Quiet-check_type : (fuel : ℕ) (t : Term) (v : Value) → Quiet (check_type fuel t v)
Quiet-check_type fuel t v = (Quiet-both fuel).1 t v

pub Quiet-synth_sort : (fuel : ℕ) (t : Term) → Quiet (synth_sort fuel t)
unfolding synth_sort
Quiet-synth_sort fuel t = Quiet-sort_of fuel _ _ (Quiet-synth_type fuel) (Quiet-check_type fuel) t

-- When a check of a term against a type ends, well typed or not, the context is as it was but for
-- messages that were added after those that were there: the globals, the items and the locals have
-- not changed.
pub check_type-Appends :
    (fuel : ℕ) (t : Term) (v : Value) (c c' : Context)
    → check_type fuel t v c ≡ ok (tt, c')
    → Appends c c'
check_type-Appends fuel t v c c' e = Ends-ok ((Quiet-check_type fuel t v).apply c) e
