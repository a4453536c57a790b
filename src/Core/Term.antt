-- ===== src/Core/Term.antt =====
-- fathom/src/lang/core.rs: the syntax of the core language. Source locations are left out: they
-- serve the diagnostics, and equality ignores them.
pub mod Scope
use text.Mathlib.Text.{◌==◌ as str_eq}
use ddl.Prelude.{
  ℕ, suc, ◌==◌, String, List, [], ◌∷◌, Bool, true, false, Option, none, some, if◌then◌else◌,
}
use ddl.Prelude.Int.{ℤ, eq_ℤ}
use ddl.Ieee754.{single, double, logical_eq}
use ddl.Runtime.Number.{FloatBits}

pub data Sort : Type 0 where
  type kind : Sort

pub data Primitive : Type 0 where
  int : ℤ → Primitive
  f32 : FloatBits → Primitive
  f64 : FloatBits → Primitive
  pos : ℕ → Primitive

unfoldable pub primitive_eq : Primitive → Primitive → Bool
unfolding logical_eq
primitive_eq (int val0) (int val1) = eq_ℤ val0 val1
primitive_eq (f32 val0) (f32 val1) = logical_eq single val0 val1
primitive_eq (f64 val0) (f64 val1) = logical_eq double val0 val1
primitive_eq (pos val0) (pos val1) = val0 == val1
primitive_eq _ _ = false

abbrev pub sort_eq : Sort → Sort → Bool
sort_eq type type = true
sort_eq kind kind = true
sort_eq _ _ = false

-- A local variable is a de Bruijn index. `Terms` is `Vec<Arc<Term>>`, `FieldDefinitions` is
-- `Vec<FieldDefinition>`, and `Branches` is `BTreeMap<BigInt, Arc<Term>>` in the order of its keys.
mutual
  pub data Term : Type 0 where
    global : String → Term
    item : String → Term
    local : ℕ → Term
    ann : Term → Term → Term
    sort : Sort → Term
    function_type : Term → Term → Term
    function_elim : Term → Term → Term
    struct_term : FieldDefinitions → Term
    struct_elim : Term → String → Term
    array_term : Terms → Term
    primitive : Primitive → Term
    bool_elim : Term → Term → Term → Term
    int_elim : Term → Branches → Term → Term
    format_type : Term
    repr : Term
    error : Term

  pub data Terms : Type 0 where
    no_terms : Terms
    more_terms : Term → Terms → Terms

  pub data FieldDefinitions : Type 0 where
    no_fields : FieldDefinitions
    field : String → Term → FieldDefinitions → FieldDefinitions

  pub data Branches : Type 0 where
    no_branches : Branches
    branch : ℤ → Term → Branches → Branches

-- `branches.get(value)`
unfoldable pub get_branch : Branches → ℤ → Option Term
get_branch no_branches value = none
get_branch (branch key term rest) value =
    if eq_ℤ key value then some term else get_branch rest value

-- `branches.len()`
unfoldable pub count_branches : Branches → ℕ
count_branches no_branches = 0
count_branches (branch key term rest) = suc (count_branches rest)

pub record FieldDeclaration : Type 0 where
  pub doc : List String
  pub label : String
  pub type_ : Term

pub record Constant : Type 0 where
  pub doc : List String
  pub name : String
  pub term : Term

pub record StructType : Type 0 where
  pub doc : List String
  pub name : String
  pub params : List (String × Term)
  pub fields : List FieldDeclaration

pub record StructFormat : Type 0 where
  pub doc : List String
  pub name : String
  pub params : List (String × Term)
  pub fields : List FieldDeclaration

pub data Item : Type 0 where
  constant : Constant → Item
  struct_type : StructType → Item
  struct_format : StructFormat → Item

pub record Module : Type 0 where
  pub doc : List String
  pub items : List Item

-- A map with `String` keys, read by `get`: the first entry of a key counts.
abbrev pub get_entry {ℓ} : {V : Type ℓ} → List (String × V) → String → Option V
get_entry [] name = none
get_entry ((key, value) ∷ rest) name = if str_eq key name then some value else get_entry rest name
