-- ===== src/Surface/Elaborate/Names.antt =====
-- fathom/src/pass/surface_to_core.rs: names that are resolved, and the names of the locals for
-- distillation.
use mathlib.Core.List.{reverse-cons}
use mathlib.Core.Option.{some-injective}
use text.Mathlib.Text.{◌==◌ as str_eq}
use text.Mathlib.TextEquality.{eq_iff}
use text.Mathlib.TextPositions.{eq_refl}
use ddl.Prelude.{
  ℕ, zero, suc, ◌+◌, ◌-◌, ◌<◌, ◌≤◌, String, List, [], ◌∷◌, true, some, ◌≡◌, ◌≢◌, inl, inr, refl,
  sym, ap, ◌∙◌, length, reverse, get_elem?, get_elem?-none, get_elem?-some, length-append, leb,
  arith, Bool-cases,
}
use ddl.Core.Term as Core
use ddl.Core.Locals.{Locals, u32_end, index_to_level, get_elem?-snoc, get_elem?-snoc_last, get-none}
use ddl.Core.Locals
use ddl.Core.Semantics.Value.{Value}
use ddl.Surface.Term.{Term}
use ddl.Surface.Distill.{Display, from_term, name_or_error}
use ddl.Surface.Elaborate.Context.{Context, find_name, get_local}

module _ {ℓ} {A : Type ℓ} where
  pub length-reverse : (xs : List A) → length (reverse xs) ≡ length xs
  length-reverse [] = refl
  length-reverse (x ∷ xs) =
      ap length (reverse-cons x xs)
      ∙ length-append (reverse xs) (x ∷ [])
      ∙ omega (arith, length-reverse xs)

  pub get_elem?-reverse :
      (xs : List A) (i : ℕ)
      → i < length xs
      → get_elem? (reverse xs) i ≡ get_elem? xs (length xs - i - 1)
  get_elem?-reverse [] i h = absurd (omega arith)
  get_elem?-reverse (x ∷ xs) i h = elim (Bool-cases (leb (length xs) i)) [
    | inl last ↦
        let e : suc (length xs) - i - 1 ≡ 0 = ground arith in
        ap (λ (ys : List A). get_elem? ys i) (reverse-cons x xs)
        ∙ get_elem?-snoc_last (reverse xs) x i (ground (arith, length-reverse xs))
        ∙ ap (get_elem? (x ∷ xs)) (sym e)
    | inr before ↦
        let below : i < length xs = ground arith in
        let e : suc (length xs) - i - 1 ≡ suc (length xs - i - 1) = omega arith in
        ap (λ (ys : List A). get_elem? ys i) (reverse-cons x xs)
        ∙ get_elem?-snoc (reverse xs) x i (omega (arith, length-reverse xs))
        ∙ get_elem?-reverse xs i below
        ∙ ap (get_elem? (x ∷ xs)) (sym e)
  ]

abbrev pub names_of : List (String × Value) → List String
names_of [] = []
names_of ((name, _) ∷ rest) = name ∷ names_of rest

length-names_of : (xs : List (String × Value)) → length (names_of xs) ≡ length xs
length-names_of [] = refl
length-names_of (x ∷ xs) = ap suc (length-names_of xs)

get_elem?-names_of :
    (xs : List (String × Value)) (k : ℕ) (name : String) (t : Value)
    → get_elem? xs k ≡ some (name, t)
    → get_elem? (names_of xs) k ≡ some name
get_elem?-names_of [] k name t e = cc
get_elem?-names_of ((n, u) ∷ xs) zero name t e = cc
get_elem?-names_of (x ∷ xs) (suc k) name t e = get_elem?-names_of xs k name t e

pub find_name-some :
    (name : String) (i : ℕ) (xs : List (String × Value)) (t : Value) (j : ℕ)
    → find_name name i xs ≡ some (t, j)
    → (k : ℕ) × (j ≡ i + k) × (get_elem? xs k ≡ some (name, t))
find_name-some name i [] t j e = cc
find_name-some name i ((n, u) ∷ xs) t j e = elim (Bool-cases (str_eq n name)) [
  | inl agree ↦
      let q = rw agree at e in
      let same = some-injective _ _ q in
      let n-is = (eq_iff n name).0 agree in
      (0, omega (arith, ap (λ r. r.1) same), rw (n-is, ap (λ r. r.0) same))
  | inr differ ↦
      let q = rw differ at e in
      let (k, j-is, found) = find_name-some name (suc i) xs t j q in (suc k, omega arith, found)
]

find_name-found :
    (name : String) (i : ℕ) (xs : List (String × Value)) (k : ℕ) (t : Value)
    → get_elem? xs k ≡ some (name, t)
    → (u : Value) × (j : ℕ) × (find_name name i xs ≡ some (u, i + j))
      × (j ≤ k)
      × (get_elem? xs j ≡ some (name, u))
find_name-found name i [] k t e = cc
find_name-found name i ((n, u) ∷ xs) zero t e =
    let n-is : n ≡ name = ap (λ r. r.0) (some-injective _ _ e) in
    let agree : str_eq n name ≡ true = rw n-is (eq_refl name) in
    (u, 0, rw agree (ap (λ (m : ℕ). some (u, m)) (omega arith)), omega arith, rw n-is)
find_name-found name i ((n, u) ∷ xs) (suc k) t e = elim (Bool-cases (str_eq n name)) [
  | inl agree ↦ (
    u,
    0,
    rw agree (ap (λ (m : ℕ). some (u, m)) (omega arith)),
    omega arith,
    rw ((eq_iff n name).0 agree),
  )
  | inr differ ↦
      let (v, j, found, least, there) = find_name-found name (suc i) xs k t e in
      (v, suc j, rw differ (found ∙ ap (λ (m : ℕ). some (v, m)) (omega arith)), omega arith, there)
]

-- The locals have the names under which they were declared, as many as a `u32` can hold.
abbrev pub IsAligned : Context → Type 0
IsAligned c =
    (c.core_to_surface.entries ≡ names_of c.local_declarations)
    × (length c.local_declarations < u32_end)

module _ (display : Display) (c : Context) (aligned : IsAligned c) where
  found-below :
      (index : ℕ) (name : String) (t : Value)
      → get_elem? (reverse c.local_declarations) index ≡ some (name, t)
      → index < length c.local_declarations
  found-below index name t e = elim (Bool-cases (leb (length c.local_declarations) index)) [
    | inr before ↦ ground arith
    | inl past ↦
        let none-is =
          get_elem?-none (reverse c.local_declarations) index
            (ground (arith, length-reverse c.local_declarations)) in
        absurd cc
  ]

  get-found :
      (index : ℕ) (name : String) (t : Value)
      → get_elem? (reverse c.local_declarations) index ≡ some (name, t)
      → Locals.get c.core_to_surface index ≡ some name
  unfolding Locals.get Locals.size index_to_level
  get-found index name t e =
      let decls = c.local_declarations in
      let below = found-below index name t e in
      let size-is : Locals.size c.core_to_surface ≡ length decls =
        omega (arith, ap length aligned.0, length-names_of decls, aligned.1) in
      let level : index_to_level (Locals.size c.core_to_surface) index
          ≡ some (length decls - index - 1) =
        rw size-is (ground (arith, below)) in
      let at-level =
        get_elem?-names_of decls (length decls - index - 1) name t
          (sym (get_elem?-reverse decls index below) ∙ e) in
      rw level (rw aligned.0 at-level)

  declared :
      (index : ℕ) (name : String)
      → Locals.get c.core_to_surface index ≡ some name
      → (t : Value) × (get_elem? (reverse c.local_declarations) index ≡ some (name, t))
  declared index name e = elim (Bool-cases (leb (length c.local_declarations) index)) [
    | inl past ↦
        let count = ap length aligned.0 ∙ length-names_of c.local_declarations in
        let none-is =
          get-none c.core_to_surface index (omega (arith, count, aligned.1))
            (ground (arith, count)) in
        absurd cc
    | inr before ↦
        let (x, there) =
          get_elem?-some (reverse c.local_declarations) index
            (ground (arith, length-reverse c.local_declarations)) in
        let named : x.0 ≡ name = some-injective _ _ (sym (get-found index x.0 x.1 there) ∙ e) in
        (x.1, there ∙ ap (λ (n : String). some (n, x.1)) named)
  ]

  -- Where the names for distillation are those of the locals, fewer than 2 ^ 32: the local that
  -- a name is resolved to distills to the name again.
  pub from_term-get_local :
      (name : String) (t : Value) (index : ℕ)
      → get_local c name ≡ some (t, index)
      → from_term display c.core_to_surface (Core.Term.local index) ≡ Term.name name
  unfolding get_local from_term
  from_term-get_local name t index e =
      let (k, index-is, found) = find_name-some name 0 (reverse c.local_declarations) t index e in
      ap (name_or_error display)
        (get-found index name t (let same : index ≡ k = omega (arith, index-is) in rw same found))

  -- Where the names for distillation are those of the locals, fewer than 2 ^ 32: a local that
  -- has a name there distills to it, and is the one to which the name is resolved, if no newer
  -- local has that name.
  pub get_local-from_term :
      (name : String) (index : ℕ)
      → Locals.get c.core_to_surface index ≡ some name
      → ((newer : ℕ) → newer < index → Locals.get c.core_to_surface newer ≢ some name)
      → (from_term display c.core_to_surface (Core.Term.local index) ≡ Term.name name)
        × ((t : Value) × (get_local c name ≡ some (t, index)))
  unfolding get_local from_term
  get_local-from_term name index e unshadowed =
      let (t, here) = declared index name e in
      let (u, j, found, least, there) =
        find_name-found name 0 (reverse c.local_declarations) index t here in
      let same : j ≡ index = elim (Bool-cases (leb index j)) [
        | inl h ↦ ground (arith, least)
        | inr h ↦ absurd (unshadowed j (ground arith) (get-found j name u there))
      ] in
      (ap (name_or_error display) e, (u, found ∙ ap (λ (m : ℕ). some (u, m)) (omega (arith, same))))
