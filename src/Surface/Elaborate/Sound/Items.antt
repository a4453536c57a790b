-- ===== src/Surface/Elaborate/Sound/Items.antt =====
-- fathom/src/pass/surface_to_core.rs: fathom/src/lang/core/typing.rs accepts the items that are
-- elaborated.
use ddl.Prelude.{ℕ, String, List, [], ◌∷◌, Option, some, none, Option-cases, inl, inr, refl}
use ddl.Outcome.{ok}
use ddl.Outcome.Post.{returns, Ends-bind}
use ddl.Core.Term as Core
use ddl.Core.Term.{Sort, type, kind, get_entry}
use ddl.Core.Semantics.Value.{Value, ItemData}
use ddl.Core.Semantics.Elimination.{repr}
use ddl.Core.Typing.Context as Checked
use ddl.Core.Typing.Judgements as Judged
use ddl.Core.Typing.Derives.{both, HasType, HasType-ann, HasType-error}
use ddl.Surface.Term.{Term, StructType, Item}
use ddl.Surface.Elaborate.Message.{Message}
use ddl.Surface.Elaborate.Context.{Context}
use ddl.Surface.Elaborate.Host.{Host, Typed}
use ddl.Surface.Elaborate.Synth.{Sorted, error_typed}
use ddl.Surface.Elaborate.Judgements.{Elaborated, is_struct_type, is_struct_format}
use ddl.Surface.Elaborate.Items.{
  annotated_struct, annotated_constant, constant_term, elaborate_item,
}
use ddl.Surface.Elaborate.Quiet.{Quiet-push_message, Quiet-to_surface}
use ddl.Surface.Elaborate.Sound.{
  core_context, IsInSync, with_messages, Yields, Yields-pure, Yields-weaken, Yields-eval,
  Yields-Quiet, ◌⇒◌,
}
use ddl.Surface.Elaborate.Sound.Direct.{IsDirect}
use ddl.Surface.Elaborate.Sound.Synth.{IsSorted}
use ddl.Surface.Elaborate.Sound.Terms.{Yields-is_type, Yields-check_type, Yields-synth_type}
use ddl.Surface.Elaborate.Sound.Locals.{Runs, Meets, after}
use ddl.Surface.Elaborate.Sound.Structs.{StructDirect, StructFits, Same, Meets-struct}

abbrev pub AnnotationDirect : Option Term → Type 0
AnnotationDirect none = Unit {0}
AnnotationDirect (some t) = IsDirect t

abbrev pub ItemsDirect : List Item → Type 0
ItemsDirect [] = Unit {0}
ItemsDirect (Item.constant k ∷ rest) =
    (IsDirect k.term × AnnotationDirect k.type_) × ItemsDirect rest
ItemsDirect (Item.struct_type t ∷ rest) =
    (AnnotationDirect t.type_ × (StructDirect t)) × ItemsDirect rest

abbrev pub ItemsFit : Context → List Item → Type 0
ItemsFit c [] = Unit {0}
ItemsFit c (Item.constant k ∷ rest) = ItemsFit c rest
ItemsFit c (Item.struct_type t ∷ rest) = StructFits c t × ItemsFit c rest

-- The entry that the core checker makes of an item.
abbrev pub entry_of : Elaborated → String × ItemData × Value
entry_of (name, item, definition, type') = (name, definition, type')

abbrev pub ItemChecked : Context → Option Elaborated → Type 0
ItemChecked c none = Unit {0}
ItemChecked c (some r) =
    Runs (λ k. Judged.check_item k r.1) (core_context c) (entry_of r) (core_context c)

abbrev pub ItemPost : Context → Option Elaborated × Context → Type 0
ItemPost c r = ItemChecked c r.0 × Same c r.1

module _ (host : Host) (fuel : ℕ) where
  abbrev HasItsType : Context → Typed → Type 0
  HasItsType c r = HasType (core_context c) r.0 r.1

  Yields-annotated :
      (t : Term) (r : Sorted) (c : Context)
      → IsInSync c
      → IsDirect t
      → IsSorted c r
      → Yields c (HasItsType c) (annotated_constant host fuel t r.0)
  Yields-annotated t (Core.Term.error, some s) c sync d h = Yields-pure error_typed HasType-error
  Yields-annotated t (u, some s) c sync d h = Yields-eval fuel u ⇒ λ v e.
      Yields-check_type host c sync fuel t v d ⇒ λ w a. Yields-pure _ (HasType-ann w u s v h e a)
  Yields-annotated t (u, none) c sync d h = rw h (Yields-pure error_typed HasType-error)

  Yields-constant :
      (t : Term) (o : Option Term) (c : Context)
      → IsInSync c
      → IsDirect t
      → AnnotationDirect o
      → Yields c (HasItsType c) (constant_term host fuel t o)
  Yields-constant t none c sync d a =
      Yields-weaken (λ r h. h.0) (Yields-synth_type host c sync fuel t d)
  Yields-constant t (some u) c sync d a =
      Yields-is_type host c sync fuel u a ⇒ λ r h. Yields-annotated t r c sync d h

  Meets-struct_type :
      (t : StructType) (c : Context)
      → IsInSync c
      → StructFits c t
      → StructDirect t
      → Meets c (λ r. ItemPost c (some r.0, r.1)) (is_struct_type host fuel t)
  unfolding is_struct_type Judged.check_item
  Meets-struct_type t c sync fits d = record {
    apply = λ ms.
        Ends-bind
          ((Meets-struct host fuel (Value.sort type) (λ field_type. field_type) t c sync fits
              d).apply
            ms)
          λ r p. returns ((p.0.0, λ k le. rw (p.0.1 k le)), p.1);
  }

  Meets-struct_format :
      (t : StructType) (c : Context)
      → IsInSync c
      → StructFits c t
      → StructDirect t
      → Meets c (λ r. ItemPost c (some r.0, r.1)) (is_struct_format host fuel t)
  unfolding is_struct_format Judged.check_item
  Meets-struct_format t c sync fits d = record {
    apply = λ ms.
        Ends-bind ((Meets-struct host fuel Value.format_type repr t c sync fits d).apply ms)
          λ r p. returns ((p.0.0, λ k le. rw (p.0.1 k le)), p.1);
  }

  Same-messages : (c : Context) (ms : List Message) → Same c (with_messages c ms)
  Same-messages c ms = (c.core_to_surface, ms, refl)

  Meets-skip : (c : Context) → Meets c (ItemPost c) (λ d. ok (none, d))
  Meets-skip c = record { apply = λ ms. returns (tt, Same-messages c ms) }

  Meets-annotated :
      (t : StructType) (v : Value) (c : Context)
      → IsInSync c
      → StructFits c t
      → StructDirect t
      → Meets c (ItemPost c) (annotated_struct host fuel t v)
  Meets-annotated t (Value.sort type) c sync fits d = record {
    apply = λ ms. Ends-bind ((Meets-struct_type t c sync fits d).apply ms) λ r p. returns p;
  }
  Meets-annotated t Value.format_type c sync fits d = record {
    apply = λ ms. Ends-bind ((Meets-struct_format t c sync fits d).apply ms) λ r p. returns p;
  }
  Meets-annotated t Value.error c sync fits d = Meets-skip c
  Meets-annotated t v c sync fits d =
      after (Yields-Quiet (Quiet-to_surface host.display fuel v))
        λ u _. after (Yields-Quiet (Quiet-push_message _)) λ _ _. Meets-skip c

  pub Meets-item :
      (item : Item) (c : Context)
      → IsInSync c
      → ItemsFit c (item ∷ [])
      → ItemsDirect (item ∷ [])
      → Meets c (ItemPost c) (elaborate_item host fuel item)
  unfolding elaborate_item Judged.check_item Checked.eval
  Meets-item (Item.constant k) c sync fits d =
      after (Yields-constant k.term k.type_ c sync d.0.0 d.0.1) λ r h.
        after (Yields-eval fuel r.0) λ v e. record {
          apply = λ ms. returns (
            let (n, p) = both h e in (n, λ m le. rw ((p m le).0, (p m le).1)),
            Same-messages c ms,
          );
        }
  Meets-item (Item.struct_type t) c sync fits d = elim (Option-cases t.type_) [
    | inl e ↦ rw e (after (Yields-Quiet (Quiet-push_message _)) λ _ _. Meets-skip c)
    | inr (u, e) ↦ rw e (
        after (Yields-is_type host c sync fuel u (rw e at (d.0.0)))
          λ r h. after (Yields-eval fuel r.0) λ v _. Meets-annotated t v c sync fits.0 d.0.1)
  ]
