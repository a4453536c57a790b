-- ===== src/Surface/Distill.antt =====
-- fathom/src/pass/core_to_surface.rs: the distillation of core terms into surface terms.
use ddl.Prelude.{String, List, [], ◌∷◌, Option, none, some}
use ddl.Prelude.Int.{ℤ}
use ddl.Runtime.Number.{FloatBits}
use ddl.Core.Term as Core
use ddl.Core.Term.{Primitive, Sort, type, kind}
use ddl.Core.Locals.{Locals}
use ddl.Core.Locals
use ddl.Surface.Term.{
  Term, Terms, FieldDefinitions, Arms, Pattern, FieldDeclaration, Item, Module, no_terms,
  more_terms, no_fields, field, no_arms, arm,
}

-- `to_string` of big integers and of floats.
pub record Display : Type 0 where
  pub int_to_string : ℤ → String
  pub f32_to_string : FloatBits → String
  pub f64_to_string : FloatBits → String

-- The context holds the names of the locals.
abbrev pub Names : Type 0
Names = Locals String

module _ (display : Display) where
  abbrev pub name_or_error : Option String → Term
  name_or_error (some local_name) = Term.name local_name
  name_or_error none = Term.error

  abbrev pub from_primitive : Primitive → Term
  from_primitive (Primitive.int value) = Term.number_literal (display.int_to_string value)
  from_primitive (Primitive.f32 value) = Term.number_literal (display.f32_to_string value)
  from_primitive (Primitive.f64 value) = Term.number_literal (display.f64_to_string value)
  from_primitive (Primitive.pos _) = Term.error

  -- `from_term` and the iterators over the parts of terms. They leave the context as it is.
  unfoldable mutual
    pub from_term : Names → Core.Term → Term
    from_term names (Core.Term.global global_name) = Term.name global_name
    from_term names (Core.Term.item item_name) = Term.name item_name
    from_term names (Core.Term.local index) = name_or_error (Locals.get names index)
    from_term names (Core.Term.ann term type') =
        Term.ann (from_term names term) (from_term names type')
    from_term names (Core.Term.sort kind) = Term.kind_type
    from_term names (Core.Term.sort type) = Term.type_type
    from_term names (Core.Term.function_type param_type body_type) =
        Term.function_type (from_term names param_type) (from_term names body_type)
    from_term names (Core.Term.function_elim head argument) =
        Term.function_elim (from_term names head) (more_terms (from_term names argument) no_terms)
    from_term names (Core.Term.struct_term definitions) =
        Term.struct_term (from_fields names definitions)
    from_term names (Core.Term.struct_elim head label) =
        Term.struct_elim (from_term names head) label
    from_term names (Core.Term.array_term elems) = Term.sequence_term (from_terms names elems)
    from_term names (Core.Term.primitive primitive) = from_primitive primitive
    from_term names (Core.Term.bool_elim head if_true if_false) =
        Term.if_term (from_term names head) (from_term names if_true) (from_term names if_false)
    from_term names (Core.Term.int_elim head branches default) =
        Term.match_term (from_term names head)
          (from_branches names branches (from_term names default))
    from_term names Core.Term.format_type = Term.format_type
    from_term names Core.Term.repr = Term.repr
    from_term names Core.Term.error = Term.error

    pub from_terms : Names → Core.Terms → Terms
    from_terms names Core.Terms.no_terms = no_terms
    from_terms names (Core.Terms.more_terms term rest) =
        more_terms (from_term names term) (from_terms names rest)

    pub from_fields : Names → Core.FieldDefinitions → FieldDefinitions
    from_fields names Core.FieldDefinitions.no_fields = no_fields
    from_fields names (Core.FieldDefinitions.field label term rest) =
        field label (from_term names term) (from_fields names rest)

    -- The default is the last arm, for any name.
    pub from_branches : Names → Core.Branches → Term → Arms
    from_branches names Core.Branches.no_branches default = arm (Pattern.name "_") default no_arms
    from_branches names (Core.Branches.branch value term rest) default =
        arm (Pattern.number_literal (display.int_to_string value)) (from_term names term)
          (from_branches names rest default)

  abbrev pub from_params : Names → List (String × Core.Term) → List (String × Term)
  from_params names [] = []
  from_params names ((name, type') ∷ rest) = (name, from_term names type') ∷ from_params names rest

  abbrev pub push_names : List (String × Core.Term) → Names → Names
  push_names [] names = names
  push_names ((name, _) ∷ rest) names = push_names rest (Locals.push names name)

  -- The loop over the fields: each is in the scope of those before it.
  unfoldable pub from_declarations :
      List Core.FieldDeclaration → Names → List FieldDeclaration × Names
  unfolding from_term Locals.push
  from_declarations [] names = ([], names)
  from_declarations (declaration ∷ rest) names =
      let (declarations, names') = from_declarations rest (Locals.push names declaration.label) in
      (
        record {
          doc = declaration.doc;
          label = declaration.label;
          type_ = from_term names declaration.type_;
        }
            ∷ declarations,
        names',
      )

  -- The arms for struct types and struct formats, which differ in the type.
  unfoldable pub from_struct :
      List String
      → String
      → List (String × Core.Term)
      → Term
      → List Core.FieldDeclaration
      → Names
      → Item × Names
  unfolding from_term from_declarations Locals.push Locals.size Locals.truncate
  from_struct doc name params type' fields names =
      let initial_size = Locals.size names in
      let (declarations, names') = from_declarations fields (push_names params names) in
      (
        Item.struct_type (record {
          doc = doc;
          name = name;
          params = from_params names params;
          type_ = some type';
          fields = declarations;
        }),
        Locals.truncate names' initial_size,
      )

  abbrev pub from_constant : Names → Core.Term → Term × Option Term
  from_constant names (Core.Term.ann term type') =
      (from_term names term, some (from_term names type'))
  from_constant names term = (from_term names term, none)

  unfoldable pub from_item : Core.Item → Names → Item × Names
  unfolding from_term from_struct
  from_item (Core.Item.constant c) names =
      let (term, type') = from_constant names c.term in
      (Item.constant (record { doc = c.doc; name = c.name; type_ = type'; term = term }), names)
  from_item (Core.Item.struct_type t) names =
      from_struct t.doc t.name t.params Term.type_type t.fields names
  from_item (Core.Item.struct_format t) names =
      from_struct t.doc t.name t.params Term.format_type t.fields names

  unfoldable pub from_items : List Core.Item → Names → List Item × Names
  unfolding from_item
  from_items [] names = ([], names)
  from_items (item ∷ rest) names =
      let (first, names') = from_item item names in
      let (items, last_names) = from_items rest names' in (first ∷ items, last_names)

  unfoldable pub from_module : Core.Module → Names → Module × Names
  unfolding from_items
  from_module m names =
      let (items, names') = from_items m.items names in
      (record { doc = m.doc; items = items }, names')
