-- ===== src/Core/Typing/Derives.antt =====
-- fathom/src/lang/core/typing.rs: what `synth_type` and `check_type` accept without a message, as
-- typing rules.
pub mod Accepts
use ddl.Prelude.{ℕ, zero, suc, ◌+◌, ◌≤◌, ◌≡◌, ◌≢◌, refl, String, Bool, true, Option, some, arith}
use ddl.Prelude.Int.{ℤ}
use ddl.Outcome.{ok}
use ddl.Runtime.Number.{FloatBits}
use ddl.Core.Term.{Term, Sort, type, kind, Primitive, get_entry}
use ddl.Core.Globals
use ddl.Core.Semantics.Value.{Value, global_value}
use ddl.Core.Semantics.Eval
use ddl.Core.Semantics.Equal
use ddl.Core.Semantics.Fields.{FieldDeclarations, get_field_type}
use ddl.Core.Typing.Context.{
  Context, eval, is_equal, get_local_type, force_field_declarations, force_item,
}
use ddl.Core.Typing.Terms.{rule, sort_of_sort, sort_of, synth_primitive, synth_term}
use ddl.Core.Typing.Judgements.{synth_type, check_type}

-- From some fuel on.
abbrev pub Eventually : (ℕ → Type 0) → Type 0
Eventually P = (n : ℕ) × ((m : ℕ) → n ≤ m → P m)

at-suc :
    (P Q : ℕ → Type 0) (n : ℕ)
    → ((m : ℕ) → n ≤ m → P m)
    → ((m : ℕ) → P m → Q (suc m))
    → (m : ℕ) → suc n ≤ m
    → Q m
at-suc P Q n h k zero le = absurd (omega arith)
at-suc P Q n h k (suc m) le = k m (h m (omega arith))

module _ {P Q : ℕ → Type 0} where
  -- With one unit of fuel more.
  pub next : Eventually P → ((m : ℕ) → P m → Q (suc m)) → Eventually Q
  next h k = (suc h.0, at-suc P Q h.0 h.1 k)

  pub both : Eventually P → Eventually Q → Eventually (λ m. P m × Q m)
  both h k = (h.0 + k.0, λ m le. (h.1 m (omega arith), k.1 m (omega arith)))

pub at-once : {Q : ℕ → Type 0} → ((m : ℕ) → Q (suc m)) → Eventually Q
at-once k = next (zero, λ m le. tt) λ m h. k m

module _ (c : Context) where
  -- `synth_type` gives the type of the term, and leaves no message.
  abbrev pub HasType : Term → Value → Type 0
  HasType t v = Eventually λ m. synth_type m t c ≡ ok (v, c)

  -- `check_type` leaves no message.
  abbrev pub IsAccepted : Term → Value → Type 0
  IsAccepted t v = Eventually λ m. check_type m t v c ≡ ok (tt, c)

  abbrev pub EvaluatesTo : Term → Value → Type 0
  EvaluatesTo t v =
      Eventually λ m. Eval.eval m c.globals c.item_definitions c.local_definitions t ≡ ok v

  abbrev pub AreEqual : Value → Value → Type 0
  AreEqual v w = Eventually λ m. Equal.is_equal m c.globals c.item_definitions v w ≡ ok true

  abbrev pub HasField : FieldDeclarations → Value → String → Value → Type 0
  HasField d v label w =
      Eventually
        λ m. get_field_type (Eval.eval m c.globals c.item_definitions) d v label ≡ ok (some w)

module _ {c : Context} where
  pub HasType-local :
      (index : ℕ) (v : Value) → get_local_type c index ≡ some v → HasType c (Term.local index) v
  unfolding synth_type synth_term
  HasType-local index v e = at-once λ m. rw e

  pub HasType-item :
      (name : String) (v : Value)
      → get_entry c.item_declarations name ≡ some v
      → HasType c (Term.item name) v
  unfolding synth_type synth_term
  HasType-item name v e = at-once λ m. rw e

  pub HasType-global :
      (name : String) (t : Term) (d : Option Term) (v : Value)
      → Globals.get c.globals name ≡ some (t, d)
      → EvaluatesTo c t v
      → HasType c (Term.global name) v
  unfolding synth_type synth_term eval
  HasType-global name t d v e h = next h λ m h. rw (e, h)

  pub HasType-ann :
      (t u : Term) (s : Sort) (v : Value)
      → HasType c u (Value.sort s)
      → EvaluatesTo c u v
      → IsAccepted c t v
      → HasType c (Term.ann t u) v
  unfolding synth_type synth_term sort_of eval
  HasType-ann t u s v h e a = next (both h (both e a)) λ m h. rw (h.0, h.1.0, h.1.1)

  pub HasType-type : HasType c (Term.sort type) (Value.sort kind)
  unfolding synth_type synth_term sort_of_sort
  HasType-type = at-once λ m. refl

  pub HasType-function_type :
      (t u : Term) (s s' : Sort)
      → HasType c t (Value.sort s)
      → HasType c u (Value.sort s')
      → HasType c (Term.function_type t u) (Value.sort (rule s s'))
  unfolding synth_type synth_term sort_of
  HasType-function_type t u s s' h k = next (both h k) λ m h. rw (h.0, h.1)

  pub HasType-function_elim :
      (t u : Term) (v w : Value)
      → HasType c t (Value.function_type v w)
      → IsAccepted c u v
      → HasType c (Term.function_elim t u) w
  unfolding synth_type synth_term
  HasType-function_elim t u v w h a = next (both h a) λ m h. rw (h.0, h.1)

  pub HasType-bool_elim :
      (t u w : Term) (v v' : Value)
      → IsAccepted c t (global_value "Bool")
      → HasType c u v
      → HasType c w v'
      → AreEqual c v v'
      → HasType c (Term.bool_elim t u w) v
  unfolding synth_type synth_term is_equal
  HasType-bool_elim t u w v v' a h k q =
      next (both (both a h) (both k q)) λ m h. rw (h.0.0, h.0.1, h.1.0, h.1.1)

  pub HasType-int : (n : ℤ) → HasType c (Term.primitive (Primitive.int n)) (global_value "Int")
  unfolding synth_type synth_term synth_primitive
  HasType-int n = at-once λ m. refl

  pub HasType-f32 :
      (x : FloatBits) → HasType c (Term.primitive (Primitive.f32 x)) (global_value "F32")
  unfolding synth_type synth_term synth_primitive
  HasType-f32 x = at-once λ m. refl

  pub HasType-f64 :
      (x : FloatBits) → HasType c (Term.primitive (Primitive.f64 x)) (global_value "F64")
  unfolding synth_type synth_term synth_primitive
  HasType-f64 x = at-once λ m. refl

  pub HasType-format_type : HasType c Term.format_type (Value.sort kind)
  unfolding synth_type synth_term
  HasType-format_type = at-once λ m. refl

  pub HasType-repr : HasType c Term.repr (Value.function_type Value.format_type (Value.sort type))
  unfolding synth_type synth_term
  HasType-repr = at-once λ m. refl

  pub HasType-error : HasType c Term.error Value.error
  unfolding synth_type synth_term
  HasType-error = at-once λ m. refl

  -- A field of a term whose type has field declarations.
  pub HasType-struct_elim :
      (t : Term) (v w x : Value) (label : String) (d : FieldDeclarations)
      → HasType c t v
      → v ≢ Value.error
      → force_field_declarations v c ≡ ok (some d, c)
      → EvaluatesTo c t x
      → HasField c d x label w
      → HasType c (Term.struct_elim t label) w
  unfolding synth_type synth_term eval
  HasType-struct_elim t Value.error w x label d h n f e k = absurd (n refl)
  HasType-struct_elim t v w x label d h n f e k =
      next (both h (both e k)) λ m h. rw (h.0, f, h.1.0, h.1.1)
