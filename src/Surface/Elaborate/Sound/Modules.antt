-- ===== src/Surface/Elaborate/Sound/Modules.antt =====
-- fathom/src/pass/surface_to_core.rs: fathom/src/lang/core/typing.rs accepts the modules that are
-- elaborated.
use mathlib.Core.Path.{subst}
use ddl.Prelude.{
  ℕ, String, List, [], ◌∷◌, ◌++◌, Option, some, none, Option-cases, inl, inr, ◌≡◌, refl, sym,
}
use ddl.Outcome.{ok, ◌>>=◌}
use ddl.Outcome.Post.{Ends, returns, Ends-bind, Ends-ok}
use ddl.Core.Term as Core
use ddl.Core.Term.{Sort, type, kind, get_entry}
use ddl.Core.Semantics.Value.{Value, Items}
use ddl.Core.Typing.Judgements as Judged
use ddl.Core.Typing.Derives.{both}
use ddl.Surface.Term.{Item, Module}
use ddl.Surface.Distill.{Names}
use ddl.Surface.Elaborate.Message.{Message}
use ddl.Surface.Elaborate.Context.{Context, push_message}
use ddl.Surface.Elaborate.Host.{Host}
use ddl.Surface.Elaborate.Judgements.{Elaborated}
use ddl.Surface.Elaborate.Items.{define_item, elaborate_items, clear_items, elaborate_module}
use ddl.Surface.Elaborate.Sound.{core_context, IsInSync}
use ddl.Surface.Elaborate.Sound.Locals.{Runs}
use ddl.Surface.Elaborate.Sound.Items.{ItemsDirect, ItemsFit, ItemChecked, Meets-item}

-- The second context has other items, and its own names for distillation and messages.
abbrev OnlyItems : Context → Context → Type 0
OnlyItems c d =
    (ts : List (String × Value)) × (is : Items) × (ns : Names) × (ms : List Message) × (d
      ≡ record c {
        item_declarations = ts;
        item_definitions = is;
        core_to_surface = ns;
        messages = ms;
      })

-- The core checker checks the items, and gets the same environments.
abbrev ItemsPost : Context → List Core.Item × Context → Type 0
ItemsPost c r =
    Runs (λ k. Judged.check_items k r.0) (core_context c) tt (core_context r.1) × OnlyItems c r.1

module _ (host : Host) (fuel : ℕ) where
  -- The rest of the items, in a context with the same locals.
  abbrev Rest : List Item → Context → Type 0
  Rest rest c =
      (ts : List (String × Value)) (is : Items) (ns : Names) (ms : List Message)
      → let d = record c {
        item_declarations = ts;
        item_definitions = is;
        core_to_surface = ns;
        messages = ms;
      } in
        Ends (ItemsPost d) (elaborate_items host fuel rest d)

  -- A new item is defined in both contexts; a name that is taken leaves no item.
  Ends-defined :
      (o : Option Elaborated) (rest : List Item) (c : Context)
      → ItemChecked c o
      → Rest rest c
      → (ns : Names) (ms : List Message)
      → Ends (ItemsPost c) (
          define_item host fuel o (record c { core_to_surface = ns; messages = ms }) >>= λ r.
          elaborate_items host fuel rest r.1 >>= λ s. ok (r.0 ++ s.0, s.1))
  unfolding push_message Judged.check_items Judged.define_item
  Ends-defined none rest c h k ns ms =
      Ends-bind (k c.item_declarations c.item_definitions ns ms) λ r p. returns p
  Ends-defined (some entry) rest c h k ns ms =
      elim (Option-cases (get_entry c.item_definitions entry.0)) [
        | inr (old, e) ↦
            rw e (Ends-bind (k c.item_declarations c.item_definitions ns _) λ r p. returns p)
        | inl e ↦ rw e (
            Ends-bind (k ((entry.0, entry.3) ∷ _) ((entry.0, entry.2) ∷ _) ns ms) λ r p.
              returns
                (let (n, q) = both h p.0 in (n, λ m le. rw ((q m le).0, e) ((q m le).1)), p.1))
      ]

  Ends-items :
      (items : List Item) (c : Context)
      → IsInSync c
      → ItemsFit c items
      → ItemsDirect items
      → Ends (ItemsPost c) (elaborate_items host fuel items c)
  unfolding elaborate_items Judged.check_items
  Ends-items [] c sync fits d = returns (
    (0, λ k le. refl),
    (c.item_declarations, c.item_definitions, c.core_to_surface, c.messages, refl),
  )
  Ends-items (Item.constant k ∷ rest) c sync fits d =
      Ends-bind ((Meets-item host fuel (Item.constant k) c sync tt (d.0, tt)).apply c.messages)
        λ r p.
          let (checked, (ns, ms, e)) = p in
          subst
            (λ (x : Context). Ends (ItemsPost c) (
              define_item host fuel r.0 x >>= λ r.
              elaborate_items host fuel rest r.1 >>= λ s. ok (r.0 ++ s.0, s.1)))
            (sym e)
            (Ends-defined r.0 rest c checked (λ ts is ns ms. Ends-items rest _ sync fits d.1) ns ms)
  Ends-items (Item.struct_type t ∷ rest) c sync fits d =
      Ends-bind
        ((Meets-item host fuel (Item.struct_type t) c sync (fits.0, tt) (d.0, tt)).apply c.messages)
        λ r p.
          let (checked, (ns, ms, e)) = p in
          subst
            (λ (x : Context). Ends (ItemsPost c) (
              define_item host fuel r.0 x >>= λ r.
              elaborate_items host fuel rest r.1 >>= λ s. ok (r.0 ++ s.0, s.1)))
            (sym e)
            (Ends-defined r.0 rest c checked (λ ts is ns ms. Ends-items rest _ sync fits.1 d.1) ns
              ms)

-- The core checker accepts the module, and its context is as before but for the items.
abbrev pub ModulePost : Context → Core.Module × Context → Type 0
ModulePost c (m, d) =
    Runs (λ k. Judged.is_module k m) (core_context c) tt (core_context d)
    × (core_context d ≡ record (core_context c) { item_declarations = []; item_definitions = [] })

module _ (host : Host) (fuel : ℕ) (c d : Context) (m : Module) (core_module : Core.Module) where
  Ends-module :
      IsInSync c
      → ItemsFit c m.items
      → ItemsDirect m.items
      → Ends (ModulePost c) (elaborate_module host fuel m c)
  unfolding elaborate_module clear_items Judged.is_module Judged.clear_items
  Ends-module sync fits direct =
      Ends-bind (Ends-items host fuel m.items c sync fits direct)
        λ r p. let ((n, h), (ts, is, ns, ms, e)) = p in returns ((n, λ k le. rw (h k le)), rw e)

  -- In a context in which every local has a type and a value, fewer than 2 ^ 32 with those of any one
  -- struct: the core module that a module is elaborated to passes `is_module`. In the core context
  -- with the same environments, it ends with enough fuel and leaves no message, whatever messages
  -- the elaboration left. The elaboration clears the items, and restores the types and the values of
  -- the locals. The module has no struct terms, no application without arguments and no match on
  -- a conditional; it may have errors.
  pub elaborate_module-is_module :
      IsInSync c
      → ItemsFit c m.items
      → ItemsDirect m.items
      → elaborate_module host fuel m c ≡ ok (core_module, d)
      → ModulePost c (core_module, d)
  elaborate_module-is_module sync fits direct e = Ends-ok (Ends-module sync fits direct) e
