-- ===== src/Surface/Elaborate/Sound/Names.antt =====
-- fathom/src/pass/surface_to_core.rs: the type with which a name is resolved is the one that
-- fathom/src/lang/core/typing.rs synthesizes.
use ddl.Prelude.{
  ℕ, zero, suc, ◌-◌, ◌<◌, String, List, [], ◌∷◌, Option, some, none, inl, inr, ◌≡◌, refl, sym, ap,
  ◌∙◌, length, reverse, get_elem?, get_elem?-none, leb, arith, Bool-cases,
}
use ddl.Core.Term as Core
use ddl.Core.Term.{get_entry}
use ddl.Core.Globals
use ddl.Core.Locals
use ddl.Core.Locals.{index_to_level, u32_end}
use ddl.Core.Semantics.Value.{Value}
use ddl.Core.Typing.Context.{get_local_type, declaration_at}
use ddl.Core.Typing.Derives.{HasType, HasType-local, HasType-item, HasType-global, HasType-error}
use ddl.Core.Typing.Derives.Accepts.{Infers}
use ddl.Surface.Elaborate.Message.{SurfaceToCoreMessage}
use ddl.Surface.Elaborate.Context.{Context, get_local}
use ddl.Surface.Elaborate.Host.{Typed, fail}
use ddl.Surface.Elaborate.Names.{find_name-some, length-reverse, get_elem?-reverse}
use ddl.Surface.Elaborate.Resolve.{synth_name, synth_local, synth_item, synth_global}
use ddl.Surface.Elaborate.Quiet.{Quiet-push_message}
use ddl.Surface.Elaborate.Sound.{
  types_of, core_context, IsInSync, Yields, Yields-pure, Yields-Quiet, Yields-eval, ◌⇒◌,
}

-- The core checker gives the term the type, and synthesizes one for it where it checks the term.
abbrev pub Gives : Context → Typed → Type 0
Gives c (t, v) = HasType (core_context c) t v × Infers t

get_elem?-types_of :
    (xs : List (String × Value)) (k : ℕ) (name : String) (t : Value)
    → get_elem? xs k ≡ some (name, t)
    → get_elem? (types_of xs) k ≡ some t
get_elem?-types_of [] k name t e = cc
get_elem?-types_of ((n, u) ∷ xs) zero name t e = cc
get_elem?-types_of (x ∷ xs) (suc k) name t e = get_elem?-types_of xs k name t e

module _ (c : Context) (synced : IsInSync c) where
  index-level :
      (index : ℕ)
      → index < length c.local_declarations
      → index_to_level (Locals.size c.local_definitions) index
        ≡ some (length c.local_declarations - index - 1)
  unfolding Locals.size index_to_level
  index-level index h =
      let size-is : Locals.size c.local_definitions ≡ length c.local_declarations =
        omega (arith, synced.0, synced.1) in
      rw size-is (ground (arith, h))

  -- The index that a name is resolved to has the declared type.
  get_local_type-get_local :
      (name : String) (t : Value) (index : ℕ)
      → get_local c name ≡ some (t, index)
      → get_local_type (core_context c) index ≡ some t
  unfolding get_local get_local_type
  get_local_type-get_local name t index e =
      let decls = c.local_declarations in
      let (k, index-is, found) = find_name-some name 0 (reverse decls) t index e in
      let same : k ≡ index = omega (arith, index-is) in
      let here : get_elem? (reverse decls) index ≡ some (name, t) = rw same at found in
      elim (Bool-cases (leb (length decls) index)) [
        | inl past ↦
            let none-is =
              get_elem?-none (reverse decls) index (ground (arith, length-reverse decls)) in
            absurd cc
        | inr before ↦
            let below : index < length decls = ground arith in
            ap (declaration_at (types_of decls)) (index-level index below)
            ∙ get_elem?-types_of decls (length decls - index - 1) name t
                (sym (get_elem?-reverse decls index below) ∙ here)
      ]

module _ (c : Context) where
  pub Yields-fail : (message : SurfaceToCoreMessage) → Yields c (Gives c) (fail message)
  Yields-fail message =
      Yields-Quiet (Quiet-push_message _) ⇒ λ _ _. Yields-pure _ (HasType-error, tt)

module _ (fuel : ℕ) (c : Context) (name : String) where
  Yields-global :
      (o : Option (Core.Term × Option Core.Term))
      → Globals.get c.globals name ≡ o
      → Yields c (Gives c) (synth_global fuel name o)
  Yields-global none e = Yields-fail c _
  Yields-global (some (t, d)) e =
      Yields-eval fuel t ⇒ λ v h. Yields-pure _ (HasType-global name t d v e h, tt)

  Yields-item :
      (o : Option Value)
      → get_entry c.item_declarations name ≡ o
      → Yields c (Gives c) (synth_item fuel name o)
  Yields-item none e = record {
    apply = λ ms. (Yields-global (Globals.get c.globals name) refl).apply ms;
  }
  Yields-item (some v) e = Yields-pure _ (HasType-item name v e, tt)

  Yields-local :
      IsInSync c
      → (o : Option (Value × ℕ)) → get_local c name ≡ o
      → Yields c (Gives c) (synth_local fuel name o)
  Yields-local s none e = record {
    apply = λ ms. (Yields-item (get_entry c.item_declarations name) refl).apply ms;
  }
  Yields-local s (some (v, index)) e =
      Yields-pure _ (HasType-local index v (get_local_type-get_local c s name v index e), tt)

  pub Yields-synth_name : IsInSync c → Yields c (Gives c) (synth_name fuel name)
  unfolding synth_name get_local
  Yields-synth_name s = record { apply = λ ms. (Yields-local s (get_local c name) refl).apply ms }
