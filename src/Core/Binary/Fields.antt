-- ===== src/Core/Binary/Fields.antt =====
-- fathom/src/lang/core/binary/read.rs: the fields that `read_struct_format` reads, and the types that
-- fathom/src/lang/core/semantics.rs gives them.
use mathlib.Core.Path.{subst}
use text.Mathlib.Text.{◌==◌ as str_eq}
use text.Mathlib.TextEquality.{eq_iff}
use text.Mathlib.TextPositions.{eq_refl}
use ddl.Prelude.{
  ℕ, zero, suc, String, List, [], ◌∷◌, Bool, true, false, ◌||◌, Option, none, some, ◌≡◌, inl, inr,
  refl, sym, ap, ◌∙◌, Bool-cases, arith,
}
use ddl.Outcome.{Outcome, ok, err, panic, timeout}
use ddl.Runtime.Read.{ReadError}
use ddl.Core.Term.{FieldDeclaration, get_entry}
use ddl.Core.Locals.{Locals}
use ddl.Core.Locals
use ddl.Core.Semantics.Value.{
  Head, Value, FieldValues, Elims, ItemData, stuck, no_elims, more_elims, function, insert,
  get_field,
}
use ddl.Core.Semantics.Elimination.{Evaluator, repr, struct_elim}
use ddl.Core.Semantics.Eval.{eval}
use ddl.Core.Semantics.Fields.{
  FieldDeclarations, get_elims, push_elims, field_type_from, get_field_type, try_field_declarations,
}
use ddl.Core.Semantics.Fields.Insert.{get_field-insert}
use ddl.Core.Binary.Session.{Context, Session, Parses, after, run}
use ddl.Core.Binary.Read.{
  take_elims, push_arguments, read_fields, read_struct_format, read_item_elims, read_value,
  read_format,
}

-- A label is declared.
abbrev pub declares : String → List FieldDeclaration → Bool
declares label [] = false
declares label (d ∷ rest) = str_eq d.label label || declares label rest

-- No label is declared twice.
abbrev pub AreUnique : List FieldDeclaration → Type 0
AreUnique [] = Unit {0}
AreUnique (d ∷ rest) = (declares d.label rest ≡ false) × AreUnique rest

after-ok :
    {A B : Type 0} (p : Outcome ReadError A × Session) (f : A → Parses B) (b : B) (s' : Session)
    → after p f ≡ (ok b, s')
    → (a : A) × (t : Session) × (p ≡ (ok a, t)) × (f a t ≡ (ok b, s'))
after-ok (ok a, t) f b s' e = (a, t, refl, e)
after-ok (err x, t) f b s' e = cc
after-ok (panic x, t) f b s' e = cc
after-ok (timeout, t) f b s' e = cc

run-ok :
    {A : Type 0} (o : Outcome ⊥ A) (a : A) (s t : Session)
    → run o s ≡ (ok a, t)
    → (o ≡ ok a) × (s ≡ t)
run-ok (ok a) b s t e = (ground arith, ground arith)
run-ok (err x) b s t e = absurd x
run-ok (panic x) b s t e = cc
run-ok timeout b s t e = cc

-- A label has a value just where it has a type. The value was read with the format that the label has,
-- given all the values, and the type is the host representation of that format.
abbrev pub IsTyped :
    (Value → Parses Value)
    → Bool
    → Option Value
    → Outcome ⊥ (Option Value)
    → Outcome ⊥ (Option Value)
    → Type 0
IsTyped read false value format' type' = (value ≡ none) × (format' ≡ ok none) × (type' ≡ ok none)
IsTyped read true value format' type' =
    (format : Value) × (v : Value) × (s : Session) × (t : Session) × (read format s ≡ (ok v, t))
    × (value ≡ some v)
    × (format' ≡ ok (some format))
    × (type' ≡ ok (some (repr format)))

module _ (ev : Evaluator) (read : Value → Parses Value) where
  other_kept :
      (label : String) (ds : List FieldDeclaration) (locals : Locals Value) (acc fs : FieldValues)
      (s s' : Session)
      → read_fields ev read ds locals acc s ≡ (ok fs, s')
      → declares label ds ≡ false
      → get_field fs label ≡ get_field acc label
  unfolding read_fields
  other_kept label [] locals acc fs s s' e n =
      ap (λ (x : FieldValues). get_field x label) (ground arith)
  other_kept label (d ∷ rest) locals acc fs s s' e n =
      let (format, s1, q, e1) = after-ok (run (ev locals d.type_) s) _ fs s' e in
      let (value, t, r, e2) = after-ok (read format s1) _ fs s' e1 in
      elim (Bool-cases (str_eq d.label label)) [
        | inl hit ↦ cc (rw hit at n)
        | inr miss ↦
            other_kept label rest _ _ fs t s' e2 (rw miss at n)
            ∙ get_field-insert d.label label value acc
            ∙ rw miss
      ]

  -- The first of the fields is in the struct.
  first_kept :
      (d : FieldDeclaration) (rest : List FieldDeclaration) (locals : Locals Value) (value : Value)
      (acc fs : FieldValues) (t s' : Session)
      → declares d.label rest ≡ false
      → read_fields ev read rest locals (insert d.label value acc) t ≡ (ok fs, s')
      → get_field fs d.label ≡ some value
  first_kept d rest locals value acc fs t s' fresh e =
      other_kept d.label rest locals _ fs t s' e fresh
      ∙ get_field-insert d.label d.label value acc
      ∙ rw (eq_refl d.label)

  read_fields-IsTyped :
      (label : String) (ds : List FieldDeclaration) (locals : Locals Value) (acc fs : FieldValues)
      (s s' : Session)
      → AreUnique ds
      → get_field acc label ≡ none
      → read_fields ev read ds locals acc s ≡ (ok fs, s')
      → IsTyped read
          (declares label ds)
          (get_field fs label)
          (field_type_from ev false (Value.struct_term fs) label ds locals)
          (field_type_from ev true (Value.struct_term fs) label ds locals)
  unfolding read_fields field_type_from struct_elim
  read_fields-IsTyped label [] locals acc fs s s' u n e =
      (ap (λ (x : FieldValues). get_field x label) (ground arith) ∙ n, refl, refl)
  read_fields-IsTyped label (d ∷ rest) locals acc fs s s' u n e =
      let (format, s1, q, e1) = after-ok (run (ev locals d.type_) s) _ fs s' e in
      let (value, t, r, e2) = after-ok (read format s1) _ fs s' e1 in
      let stored = first_kept d rest _ value acc fs t s' u.0 e2 in
      elim (Bool-cases (str_eq d.label label)) [
        | inl hit ↦ rw hit (
          format,
          value,
          s1,
          t,
          r,
          ap (get_field fs) (sym ((eq_iff d.label label).0 hit)) ∙ stored,
          rw (run-ok (ev locals d.type_) format s s1 q).0,
          rw (run-ok (ev locals d.type_) format s s1 q).0,
        )
        | inr miss ↦
            rw (miss, stored)
              (read_fields-IsTyped label rest (Locals.push locals value) _ fs t s' u.1
                (get_field-insert d.label label value acc ∙ rw miss n) e2)
      ]

take_elims-ok :
    (arity : ℕ) (elims taken : Elims) (s t : Session)
    → take_elims arity elims s ≡ (ok taken, t)
    → get_elims arity elims ≡ some taken
unfolding take_elims
take_elims-ok zero elims taken s t e = ground arith
take_elims-ok (suc arity) no_elims taken s t e = cc
take_elims-ok (suc arity) (more_elims first rest) taken s t e =
    let (later, t1, q, e1) = after-ok (take_elims arity rest s) _ taken t e in
    rw (take_elims-ok arity rest later s t1 q) (ground arith)

push_arguments-ok :
    (elims : Elims) (locals pushed : Locals Value) (s t : Session)
    → push_arguments elims locals s ≡ (ok pushed, t)
    → push_elims elims locals ≡ ok pushed
unfolding push_arguments push_elims
push_arguments-ok no_elims locals pushed s t e = ground arith
push_arguments-ok (more_elims (function value) rest) locals pushed s t e =
    push_arguments-ok rest (Locals.push locals value) pushed s t e
push_arguments-ok (more_elims _ rest) locals pushed s t e = cc

-- An item that is a struct format and declares no label twice, read with any arguments: if the read
-- gives a value, the arguments have field declarations, and the value is a struct. For every label: it
-- has a field exactly if it is declared, and `get_field_type` on the struct finds a type exactly then.
-- The field was read with the declared format, evaluated with the fields of the struct, and its type is
-- the host representation of that format.
pub read_format-IsTyped :
    (fuel : ℕ) (ctx : Context) (name label : String) (arity : ℕ) (fields : List FieldDeclaration)
    (elims : Elims) (s s' : Session) (v : Value)
    → get_entry ctx.items name ≡ some (ItemData.struct_format arity fields)
    → AreUnique fields
    → read_format (suc fuel) ctx (stuck (Head.item name) elims) s ≡ (ok v, s')
    → (fs : FieldValues) × (declarations : FieldDeclarations) × (v ≡ Value.struct_term fs)
      × (try_field_declarations (ItemData.struct_format arity fields) elims
          ≡ ok (some declarations))
      × IsTyped
          (read_format fuel ctx)
          (declares label fields)
          (get_field fs label)
          (get_field_type
            (eval fuel ctx.globals ctx.items)
            (record declarations { is_format = false })
            v
            label)
          (get_field_type (eval fuel ctx.globals ctx.items) declarations v label)
unfolding read_format read_value read_item_elims read_struct_format try_field_declarations
    get_field_type get_field
read_format-IsTyped fuel ctx name label arity fields elims s s' v found unique e =
    let ev = eval fuel ctx.globals ctx.items in
    let e0 = rw found at e in
    let (taken, t0, q0, e1) = after-ok (take_elims arity elims s) _ v s' e0 in
    let (locals, t1, q1, e2) = after-ok (push_arguments taken Locals.new t0) _ v s' e1 in
    let (fs, t2, q2, e3) =
      after-ok (read_fields ev (read_format fuel ctx) fields locals FieldValues.no_fields t1) _ v s'
        e2 in
    let same : v ≡ Value.struct_term fs = ground arith in
    (
      fs,
      record { is_format = true; locals = locals; fields = fields },
      same,
      rw (
        take_elims-ok arity elims taken s t0 q0,
        push_arguments-ok taken Locals.new locals t0 t1 q1,
      ),
      subst
          (λ x.
            IsTyped (read_format fuel ctx) (declares label fields) (get_field fs label)
              (field_type_from ev false x label fields locals)
              (field_type_from ev true x label fields locals))
          (sym same)
          (read_fields-IsTyped ev (read_format fuel ctx) label fields locals _ fs t1 t2 unique refl
            q2),
    )
