-- ===== src/Surface/Restores.antt =====
-- fathom/src/pass/core_to_surface.rs: `from_module` restores the names of the locals.
use mathlib.Core.List.{append-nil, append_assoc}
use ddl.Prelude.{
  String, List, [], ◌∷◌, ◌++◌, ◌%◌, ◌<◌, ◌≡◌, refl, sym, ap, ◌∙◌, length, take-append, arith,
}
use ddl.Core.Term as Core
use ddl.Core.Locals.{Locals, u32_end}
use ddl.Core.Locals
use ddl.Surface.Term.{Term}
use ddl.Surface.Distill.{
  Display, Names, push_names, from_declarations, from_struct, from_item, from_items, from_module,
}

module _ (display : Display) where
  push_names-append :
      (params : List (String × Core.Term)) (names : Names)
      → (more : List String) × ((push_names display params names).entries ≡ names.entries ++ more)
  unfolding Locals.push
  push_names-append [] names = ([], sym (append-nil names.entries))
  push_names-append ((name, _) ∷ rest) names =
      let (more, e) = push_names-append rest (Locals.push names name) in
      (name ∷ more, e ∙ append_assoc names.entries (name ∷ []) more)

  from_declarations-append :
      (fields : List Core.FieldDeclaration) (names : Names)
      → (more : List String) × ((from_declarations display fields names).1.entries
          ≡ names.entries ++ more)
  unfolding from_declarations Locals.push
  from_declarations-append [] names = ([], sym (append-nil names.entries))
  from_declarations-append (declaration ∷ rest) names =
      let (more, e) = from_declarations-append rest (Locals.push names declaration.label) in
      (declaration.label ∷ more, e ∙ append_assoc names.entries (declaration.label ∷ []) more)

  from_struct-restores :
      (doc : List String) (name : String) (params : List (String × Core.Term)) (type' : Term)
      (fields : List Core.FieldDeclaration) (names : Names)
      → length names.entries < u32_end
      → (from_struct display doc name params type' fields names).1 ≡ names
  unfolding from_struct Locals.truncate Locals.size
  from_struct-restores doc name params type' fields names fits =
      let (pushed, p) = push_names-append params names in
      let (declared, q) = from_declarations-append fields (push_names display params names) in
      let whole =
        q
        ∙ ap (λ (xs : List String). xs ++ declared) p
        ∙ append_assoc names.entries pushed declared in
      let same : length names.entries % u32_end ≡ length names.entries = omega arith in
      rw (whole, same)
        (ap (λ (xs : List String). record { entries = xs })
          (take-append names.entries (pushed ++ declared)))

  from_item-restores :
      (item : Core.Item) (names : Names)
      → length names.entries < u32_end
      → (from_item display item names).1 ≡ names
  unfolding from_item
  from_item-restores (Core.Item.constant c) names fits = refl
  from_item-restores (Core.Item.struct_type t) names fits =
      from_struct-restores t.doc t.name t.params Term.type_type t.fields names fits
  from_item-restores (Core.Item.struct_format t) names fits =
      from_struct-restores t.doc t.name t.params Term.format_type t.fields names fits

  from_items-restores :
      (items : List Core.Item) (names : Names)
      → length names.entries < u32_end
      → (from_items display items names).1 ≡ names
  unfolding from_items
  from_items-restores [] names fits = refl
  from_items-restores (item ∷ rest) names fits =
      rw (from_item-restores item names fits) (from_items-restores rest names fits)

  -- The distillation of a module ends with the names of locals with which it began, if a `u32` can
  -- hold how many they are.
  pub from_module-restores :
      (m : Core.Module) (names : Names)
      → length names.entries < u32_end
      → (from_module display m names).1 ≡ names
  unfolding from_module
  from_module-restores m names fits = from_items-restores m.items names fits
