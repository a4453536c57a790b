-- ===== src/Core/Semantics/Equal/Reflexive.antt =====
-- fathom/src/lang/core/semantics.rs: which values `is_equal` finds equal to themselves.
use text.Mathlib.Text.{◌==◌ as str_eq}
use text.Mathlib.TextPositions.{eq_refl}
use mathlib.Core.Path.{subst}
use ddl.Prelude.{
  ℕ, String, zero, suc, ◌≤◌, ◌≡◌, refl, ◌==◌, true, some, arith, Bool-cases, inl, inr,
}
use ddl.Prelude.Int.{eq_ℤ_iff}
use ddl.Outcome.{ok}
use ddl.Core.Term.{Primitive, primitive_eq, Sort, type, kind, sort_eq}
use ddl.Core.Globals.{Globals}
use ddl.Core.Semantics.Value.{
  Head, Value, Values, FieldValues, Elims, Items, stuck, no_elims, more_elims, function, struct,
  bool, int, to_repr, no_values, more_values, no_fields, field, get_field, count_elims,
  count_fields,
}
use ddl.Core.Semantics.Elimination.{Evaluator}
use ddl.Core.Semantics.Equal.{
  Comparison, is_equal_head, is_equal_elim, is_equal_elims, is_equal_spine, is_equal_fields,
  is_equal_values, is_equal_value, is_equal, count_values,
}
use ddl.Core.Semantics.Equal.Plain.{
  IsPlain, ArePlainElims, ArePlain, ArePlainFields, height, height_elims, height_values,
  height_fields,
}

primitive_eq_refl : (p : Primitive) → primitive_eq p p ≡ true
unfolding primitive_eq
primitive_eq_refl (Primitive.int z) = (eq_ℤ_iff z z).1 refl
primitive_eq_refl (Primitive.f32 x) = ground arith
primitive_eq_refl (Primitive.f64 x) = ground arith
primitive_eq_refl (Primitive.pos n) = ground arith

sort_eq_refl : (s : Sort) → sort_eq s s ≡ true
sort_eq_refl type = refl
sort_eq_refl kind = refl

is_equal_head_refl : (h : Head) → is_equal_head h h ≡ true
unfolding is_equal_head
is_equal_head_refl (Head.global name) = eq_refl name
is_equal_head_refl (Head.item name) = eq_refl name
is_equal_head_refl (Head.local level) = ground arith
is_equal_head_refl Head.error = refl

count_refl : (n : ℕ) → (n == n) ≡ true
count_refl n = ground arith

-- Every value of a map satisfies `P`.
abbrev AllFields : (Value → Type 0) → FieldValues → Type 0
AllFields P no_fields = Unit {0}
AllFields P (field label v fs) = P v × AllFields P fs

get_field-AllFields :
    (P : Value → Type 0) (fs : FieldValues) (label : String) (v : Value)
    → AllFields P fs
    → get_field fs label ≡ some v
    → P v
unfolding get_field
get_field-AllFields P no_fields label v h e = cc
get_field-AllFields P (field label' w fs) label v h e = elim (Bool-cases (str_eq label' label)) [
  | inl hit ↦ subst P (ground arith) h.0
  | inr miss ↦ get_field-AllFields P fs label v h.1 (rw miss at e)
]

-- Every key of the first map has a value in the second.
abbrev Found : FieldValues → FieldValues → Type 0
Found no_fields fs = Unit {0}
Found (field label v keys) fs = ((w : Value) × (get_field fs label ≡ some w)) × Found keys fs

Found-field :
    (keys fs : FieldValues) (label : String) (v : Value)
    → Found keys fs
    → Found keys (field label v fs)
unfolding get_field
Found-field no_fields fs label v h = tt
Found-field (field label' w keys) fs label v h = (
  elim (Bool-cases (str_eq label label')) [
    | inl hit ↦ (v, rw hit)
    | inr miss ↦ (h.0.0, rw miss h.0.1)
  ],
  Found-field keys fs label v h.1,
)

Found-refl : (fs : FieldValues) → Found fs fs
unfolding get_field
Found-refl no_fields = tt
Found-refl (field label v fs) = ((v, rw (eq_refl label)), Found-field fs fs label v (Found-refl fs))

is_equal_fields_refl :
    (eq : Comparison) (keys fs : FieldValues)
    → Found keys fs
    → AllFields (λ v. eq v v ≡ ok true) fs
    → is_equal_fields eq keys fs fs ≡ ok true
unfolding is_equal_fields
is_equal_fields_refl eq no_fields fs f h = refl
is_equal_fields_refl eq (field label v keys) fs f h =
    let (w, e) = f.0 in
    rw (e, get_field-AllFields (λ v. eq v v ≡ ok true) fs label w h e)
      (is_equal_fields_refl eq keys fs f.1 h)

module _ (globals : Globals) (items : Items) where
  mutual
    unfolding is_equal is_equal_value is_equal_spine is_equal_elims is_equal_elim is_equal_values

    refl_value :
        (f : ℕ) (v : Value) → height v ≤ f → IsPlain v → is_equal f globals items v v ≡ ok true
    refl_value zero (stuck h es) d p = absurd (omega arith)
    refl_value zero _ d p = absurd (omega arith)
    refl_value (suc f) (stuck h es) d p =
        rw (is_equal_head_refl h, count_refl (count_elims es)) (refl_elims f es (omega arith) p _)
    refl_value (suc f) (Value.sort s) d p = rw (sort_eq_refl s)
    refl_value (suc f) (Value.function_type v w) d p =
        rw (refl_value f v (omega arith) p.0) (refl_value f w (omega arith) p.1)
    refl_value (suc f) (Value.struct_term fs) d p = rw (count_refl (count_fields fs)) (
        is_equal_fields_refl (is_equal f globals items) fs fs (Found-refl fs)
          (refl_fields f fs (omega arith) p))
    refl_value (suc f) (Value.array_term vs) d p =
        rw (count_refl (count_values vs)) (refl_values f vs (omega arith) p)
    refl_value (suc f) (Value.primitive q) d p = rw (primitive_eq_refl q)
    refl_value (suc f) Value.format_type d p = refl
    refl_value (suc f) Value.repr d p = refl
    refl_value (suc f) Value.error d p = refl

    refl_elims :
        (f : ℕ) (es : Elims)
        → height_elims es ≤ f
        → ArePlainElims es
        → (ev : Evaluator) → is_equal_elims ev (is_equal f globals items) es es ≡ ok true
    refl_elims f no_elims d p ev = refl
    refl_elims f (more_elims (function v) es) d p ev =
        rw (refl_value f v (omega arith) p.0) (refl_elims f es (omega arith) p.1 ev)
    refl_elims f (more_elims to_repr es) d p ev = refl_elims f es (omega arith) p.1 ev
    refl_elims f (more_elims (struct label) es) d p ev = absurd p.0
    refl_elims f (more_elims (bool vs t u) es) d p ev = absurd p.0
    refl_elims f (more_elims (int vs bs t) es) d p ev = absurd p.0

    refl_values :
        (f : ℕ) (vs : Values)
        → height_values vs ≤ f
        → ArePlain vs
        → is_equal_values (is_equal f globals items) vs vs ≡ ok true
    refl_values f no_values d p = refl
    refl_values f (more_values v vs) d p =
        rw (refl_value f v (omega arith) p.0) (refl_values f vs (omega arith) p.1)

    refl_fields :
        (f : ℕ) (fs : FieldValues)
        → height_fields fs ≤ f
        → ArePlainFields fs
        → AllFields (λ v. is_equal f globals items v v ≡ ok true) fs
    refl_fields f no_fields d p = tt
    refl_fields f (field label v fs) d p =
        (refl_value f v (omega arith) p.0, refl_fields f fs (omega arith) p.1)

-- A value without field lookups and captured terms in its spines is equal to itself, floats that are
-- NaN included, with as much fuel as it is high.
pub is_equal_refl :
    (globals : Globals) (items : Items) (fuel : ℕ) (v : Value)
    → height v ≤ fuel
    → IsPlain v
    → is_equal fuel globals items v v ≡ ok true
is_equal_refl globals items fuel v d p = refl_value globals items fuel v d p
