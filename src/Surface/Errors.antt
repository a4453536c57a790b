-- ===== src/Surface/Errors.antt =====
-- fathom/src/pass/core_to_surface.rs: which core terms distill to terms without errors.
use ddl.Prelude.{ℕ, ◌<◌, ◌≤◌, ◌↔◌, length, arith, Bool-cases, leb, ◌⊎◌, inl, inr}
use ddl.Core.Term as Core
use ddl.Core.Term.{Primitive, Sort, type, kind}
use ddl.Core.Locals.{Locals, u32_end, index_to_level, get-some, get-none}
use ddl.Core.Locals
use ddl.Surface.Term.{
  Term, Terms, FieldDefinitions, Arms, no_terms, more_terms, no_fields, field, no_arms, arm,
}
use ddl.Surface.Distill.{
  Display, Names, from_term, from_terms, from_fields, from_branches, name_or_error,
}

-- No part of the surface term is an error.
abbrev mutual
  pub IsClean : Term → Type 0
  IsClean Term.error = ⊥
  IsClean (Term.ann t u) = IsClean t × IsClean u
  IsClean (Term.function_type t u) = IsClean t × IsClean u
  IsClean (Term.function_elim t us) = IsClean t × AreClean us
  IsClean (Term.struct_term fs) = AreCleanFields fs
  IsClean (Term.struct_elim t label) = IsClean t
  IsClean (Term.sequence_term ts) = AreClean ts
  IsClean (Term.if_term t u w) = IsClean t × IsClean u × IsClean w
  IsClean (Term.match_term t arms) = IsClean t × AreCleanArms arms
  IsClean _ = Unit {0}

  pub AreClean : Terms → Type 0
  AreClean no_terms = Unit {0}
  AreClean (more_terms t ts) = IsClean t × AreClean ts

  pub AreCleanFields : FieldDefinitions → Type 0
  AreCleanFields no_fields = Unit {0}
  AreCleanFields (field label t fs) = IsClean t × AreCleanFields fs

  pub AreCleanArms : Arms → Type 0
  AreCleanArms no_arms = Unit {0}
  AreCleanArms (arm pattern t arms) = IsClean t × AreCleanArms arms

-- No part of the core term is an error or a position, and every local index is below `n`.
abbrev mutual
  pub IsPrintable : ℕ → Core.Term → Type 0
  IsPrintable n Core.Term.error = ⊥
  IsPrintable n (Core.Term.primitive (Primitive.pos _)) = ⊥
  IsPrintable n (Core.Term.local index) = index < n
  IsPrintable n (Core.Term.ann t u) = IsPrintable n t × IsPrintable n u
  IsPrintable n (Core.Term.function_type t u) = IsPrintable n t × IsPrintable n u
  IsPrintable n (Core.Term.function_elim t u) = IsPrintable n t × IsPrintable n u
  IsPrintable n (Core.Term.struct_term fs) = ArePrintableFields n fs
  IsPrintable n (Core.Term.struct_elim t label) = IsPrintable n t
  IsPrintable n (Core.Term.array_term ts) = ArePrintable n ts
  IsPrintable n (Core.Term.bool_elim t u w) = IsPrintable n t × IsPrintable n u × IsPrintable n w
  IsPrintable n (Core.Term.int_elim t bs w) =
      IsPrintable n t × ArePrintableBranches n bs × IsPrintable n w
  IsPrintable n _ = Unit {0}

  pub ArePrintable : ℕ → Core.Terms → Type 0
  ArePrintable n Core.Terms.no_terms = Unit {0}
  ArePrintable n (Core.Terms.more_terms t ts) = IsPrintable n t × ArePrintable n ts

  pub ArePrintableFields : ℕ → Core.FieldDefinitions → Type 0
  ArePrintableFields n Core.FieldDefinitions.no_fields = Unit {0}
  ArePrintableFields n (Core.FieldDefinitions.field label t fs) =
      IsPrintable n t × ArePrintableFields n fs

  pub ArePrintableBranches : ℕ → Core.Branches → Type 0
  ArePrintableBranches n Core.Branches.no_branches = Unit {0}
  ArePrintableBranches n (Core.Branches.branch key t bs) =
      IsPrintable n t × ArePrintableBranches n bs

both : {A B C D : Type 0} → (A ↔ B) → (C ↔ D) → ((A × C) ↔ (B × D))
both p q = (λ h. (p.0 h.0, q.0 h.1), λ h. (p.1 h.0, q.1 h.1))

three : {A B C D E F : Type 0} → (A ↔ B) → (C ↔ D) → (E ↔ F) → ((A × C × E) ↔ (B × D × F))
three p q r = (λ h. (p.0 h.0, q.0 h.1, r.0 h.2), λ h. (p.1 h.0, q.1 h.1, r.1 h.2))

same : {A : Type 0} → (A ↔ A)
same = (λ h. h, λ h. h)

lt-cases : (m n : ℕ) → (m < n) ⊎ (n ≤ m)
lt-cases m n = elim (Bool-cases (leb n m)) [
  | inl h ↦ inr (ground arith)
  | inr h ↦ inl (ground arith)
]

module _ (display : Display) (names : Names) (fits : length names.entries < u32_end) where
  local-IsClean :
      (index : ℕ)
      → IsClean (name_or_error display (Locals.get names index)) ↔ (index < length names.entries)
  local-IsClean index = elim (lt-cases index (length names.entries)) [
    | inl h ↦ let (entry, e) = get-some names index fits h in rw e (λ _. h, λ _. tt)
    | inr h ↦ rw (get-none names index fits h) (λ x. absurd x, λ g. absurd (omega arith))
  ]

  mutual
    unfolding from_term

    clean :
        (t : Core.Term) → IsClean (from_term display names t) ↔ IsPrintable (length names.entries) t
    clean (Core.Term.global x) = same
    clean (Core.Term.item x) = same
    clean (Core.Term.local i) = local-IsClean i
    clean (Core.Term.ann t u) = both (clean t) (clean u)
    clean (Core.Term.sort type) = same
    clean (Core.Term.sort kind) = same
    clean (Core.Term.function_type t u) = both (clean t) (clean u)
    clean (Core.Term.function_elim t u) =
        both (clean t) (λ h. (clean u).0 h.0, λ h. ((clean u).1 h, tt))
    clean (Core.Term.struct_term fs) = clean_fields fs
    clean (Core.Term.struct_elim t label) = clean t
    clean (Core.Term.array_term ts) = clean_terms ts
    clean (Core.Term.primitive (Primitive.int x)) = same
    clean (Core.Term.primitive (Primitive.f32 x)) = same
    clean (Core.Term.primitive (Primitive.f64 x)) = same
    clean (Core.Term.primitive (Primitive.pos x)) = same
    clean (Core.Term.bool_elim t u w) = three (clean t) (clean u) (clean w)
    clean (Core.Term.int_elim t bs w) =
        let rest = clean_branches bs w (clean w) in
        let first = clean t in
        (λ g. (first.0 g.0, (rest.0 g.1).0, (rest.0 g.1).1), λ g. (first.1 g.0, rest.1 (g.1, g.2)))
    clean Core.Term.format_type = same
    clean Core.Term.repr = same
    clean Core.Term.error = same

    clean_terms :
        (ts : Core.Terms)
        → AreClean (from_terms display names ts) ↔ ArePrintable (length names.entries) ts
    clean_terms Core.Terms.no_terms = same
    clean_terms (Core.Terms.more_terms t ts) = both (clean t) (clean_terms ts)

    clean_fields :
        (fs : Core.FieldDefinitions)
        → AreCleanFields (from_fields display names fs)
          ↔ ArePrintableFields (length names.entries) fs
    clean_fields Core.FieldDefinitions.no_fields = same
    clean_fields (Core.FieldDefinitions.field label t fs) = both (clean t) (clean_fields fs)

    clean_branches :
        (bs : Core.Branches) (w : Core.Term)
        → (IsClean (from_term display names w) ↔ IsPrintable (length names.entries) w)
        → AreCleanArms (from_branches display names bs (from_term display names w))
          ↔ (ArePrintableBranches (length names.entries) bs × IsPrintable (length names.entries) w)
    clean_branches Core.Branches.no_branches w h = (λ g. (tt, h.0 g.0), λ g. (h.1 g.1, tt))
    clean_branches (Core.Branches.branch key t bs) w h =
        let rest = clean_branches bs w h in
        let first = clean t in
        (
          λ g. ((first.0 g.0, (rest.0 g.1).0), (rest.0 g.1).1),
          λ g. (first.1 g.0.0, rest.1 (g.0.1, g.1)),
        )

  -- Where a `u32` can hold the number of the locals that are named: a core term distills to a
  -- surface term without errors exactly if it has no errors and no positions, and each of its
  -- locals is one of those.
  pub IsClean-from_term :
      (t : Core.Term) → IsClean (from_term display names t) ↔ IsPrintable (length names.entries) t
  IsClean-from_term t = clean t
