-- ===== src/Surface/Term.antt =====
-- fathom/src/lang/surface.rs: the syntax of the surface language, without locations.
use ddl.Prelude.{String, List, Option}

-- `Terms` is `Vec<Term>`, `FieldDefinitions` is `Vec<FieldDefinition>`, and `Arms` is
-- `Vec<(Pattern, Term)>`.
pub data Pattern : Type 0 where
  name : String → Pattern
  number_literal : String → Pattern

mutual
  pub data Term : Type 0 where
    ann : Term → Term → Term
    name : String → Term
    type_type : Term
    kind_type : Term
    function_type : Term → Term → Term
    function_elim : Term → Terms → Term
    struct_term : FieldDefinitions → Term
    struct_elim : Term → String → Term
    sequence_term : Terms → Term
    number_literal : String → Term
    if_term : Term → Term → Term → Term
    match_term : Term → Arms → Term
    format_type : Term
    repr : Term
    error : Term

  pub data Terms : Type 0 where
    no_terms : Terms
    more_terms : Term → Terms → Terms

  pub data FieldDefinitions : Type 0 where
    no_fields : FieldDefinitions
    field : String → Term → FieldDefinitions → FieldDefinitions

  pub data Arms : Type 0 where
    no_arms : Arms
    arm : Pattern → Term → Arms → Arms

pub record FieldDeclaration : Type 0 where
  pub doc : List String
  pub label : String
  pub type_ : Term

pub record Constant : Type 0 where
  pub doc : List String
  pub name : String
  pub type_ : Option Term
  pub term : Term

pub record StructType : Type 0 where
  pub doc : List String
  pub name : String
  pub params : List (String × Term)
  pub type_ : Option Term
  pub fields : List FieldDeclaration

pub data Item : Type 0 where
  constant : Constant → Item
  struct_type : StructType → Item

pub record Module : Type 0 where
  pub doc : List String
  pub items : List Item
