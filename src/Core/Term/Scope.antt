-- ===== src/Core/Term/Scope.antt =====
-- fathom/src/lang/core.rs: how deep a term is, and which local variables it may name.
use Prim.Native.Nat.{max}
use ddl.Prelude.{ℕ, suc, ◌<◌}
use ddl.Core.Term.{
  Term, Terms, FieldDefinitions, Branches, no_terms, more_terms, no_fields, field, no_branches,
  branch,
}

abbrev mutual
  pub depth : Term → ℕ
  depth (Term.ann t u) = suc (max (depth t) (depth u))
  depth (Term.function_type t u) = suc (max (depth t) (depth u))
  depth (Term.function_elim t u) = suc (max (depth t) (depth u))
  depth (Term.struct_term fs) = suc (depth_fields fs)
  depth (Term.struct_elim t label) = suc (depth t)
  depth (Term.array_term ts) = suc (depth_terms ts)
  depth (Term.bool_elim t u w) = suc (max (depth t) (max (depth u) (depth w)))
  depth (Term.int_elim t bs w) = suc (max (depth t) (max (depth_branches bs) (depth w)))
  depth _ = 1

  pub depth_terms : Terms → ℕ
  depth_terms no_terms = 0
  depth_terms (more_terms t ts) = max (depth t) (depth_terms ts)

  pub depth_fields : FieldDefinitions → ℕ
  depth_fields no_fields = 0
  depth_fields (field label t fs) = max (depth t) (depth_fields fs)

  pub depth_branches : Branches → ℕ
  depth_branches no_branches = 0
  depth_branches (branch key t bs) = max (depth t) (depth_branches bs)

-- Every local index of the term is below `n`. An annotation's type is not evaluated.
abbrev mutual
  pub IsScoped : ℕ → Term → Type 0
  IsScoped n (Term.local index) = index < n
  IsScoped n (Term.ann t u) = IsScoped n t
  IsScoped n (Term.function_type t u) = IsScoped n t × IsScoped n u
  IsScoped n (Term.function_elim t u) = IsScoped n t × IsScoped n u
  IsScoped n (Term.struct_term fs) = AreScopedFields n fs
  IsScoped n (Term.struct_elim t label) = IsScoped n t
  IsScoped n (Term.array_term ts) = AreScoped n ts
  IsScoped n (Term.bool_elim t u w) = IsScoped n t × IsScoped n u × IsScoped n w
  IsScoped n (Term.int_elim t bs w) = IsScoped n t × AreScopedBranches n bs × IsScoped n w
  IsScoped n _ = Unit {0}

  pub AreScoped : ℕ → Terms → Type 0
  AreScoped n no_terms = Unit {0}
  AreScoped n (more_terms t ts) = IsScoped n t × AreScoped n ts

  pub AreScopedFields : ℕ → FieldDefinitions → Type 0
  AreScopedFields n no_fields = Unit {0}
  AreScopedFields n (field label t fs) = IsScoped n t × AreScopedFields n fs

  pub AreScopedBranches : ℕ → Branches → Type 0
  AreScopedBranches n no_branches = Unit {0}
  AreScopedBranches n (branch key t bs) = IsScoped n t × AreScopedBranches n bs
