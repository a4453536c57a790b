-- ===== src/Surface/Elaborate/Sound.antt =====
-- fathom/src/pass/surface_to_core.rs: what a method yields in a context in which it adds messages
-- only, stated with the context of fathom/src/lang/core/typing.rs that has the same environments.
pub mod Names
pub mod Direct
pub mod Match
pub mod Check
pub mod Synth
pub mod Terms
pub mod Locals
pub mod Params
pub mod Fields
pub mod Structs
pub mod Items
pub mod Modules
use mathlib.Core.Path.{subst}
use ddl.Prelude.{
  ℕ, String, List, [], ◌∷◌, Bool, Option, some, none, true, Option-cases, inl, inr, ◌≡◌, refl, sym,
  ap, length, ◌<◌,
}
use ddl.Outcome.{Outcome, ok, err, panic, timeout, ◌>>=◌}
use ddl.Outcome.Post.{Ends, returns, panics, expires, Ends-bind, Ends-weaken}
use ddl.Core.Term as Core
use ddl.Core.Term.{get_entry}
use ddl.Core.Locals.{u32_end}
use ddl.Core.Semantics.Value.{Value, Elims, ItemData, try_item}
use ddl.Core.Semantics.Eval
use ddl.Core.Semantics.Eval.Fuel.{eval_mono}
use ddl.Core.Semantics.Equal
use ddl.Core.Semantics.Equal.Fuel.{is_equal_mono}
use ddl.Core.Semantics.Fields.{FieldDeclarations, get_field_type, try_field_declarations}
use ddl.Core.Semantics.Fields.Fuel.{get_field_type_mono}
use ddl.Core.Typing.Context as Checked
use ddl.Core.Typing.Derives.{EvaluatesTo, AreEqual, HasField}
use ddl.Surface.Elaborate.Message.{Message}
use ddl.Surface.Elaborate.Context.{
  Context, Elaborates, eval, is_equal, force_item, force_field_declarations, force_named,
  force_found, declarations_of_item, reads,
}
use ddl.Surface.Elaborate.Quiet.{Quiet}

abbrev pub types_of : List (String × Value) → List Value
types_of [] = []
types_of ((_, t) ∷ rest) = t ∷ types_of rest

-- The context of the core type checker, without messages.
abbrev pub core_context : Context → Checked.Context
core_context c = record {
  globals = c.globals;
  item_declarations = c.item_declarations;
  item_definitions = c.item_definitions;
  local_declarations = types_of c.local_declarations;
  local_definitions = c.local_definitions;
  messages = [];
}

-- Every local has a type and a value, and there are as many as a `u32` can hold.
abbrev pub IsInSync : Context → Type 0
IsInSync c =
    (length c.local_declarations ≡ length c.local_definitions.entries)
    × (length c.local_declarations < u32_end)

abbrev pub with_messages : Context → List Message → Context
with_messages c ms = record c { messages = ms }

-- In the context `c` with any messages, the method ends with a value that satisfies `P`, and changes
-- the messages only, if it ends.
pub record Yields {A : Type 0} (c : Context) (P : A → Type 0) (m : Elaborates A) : Type 0 where
  pub apply :
      (ms : List Message)
      → Ends
          (λ r. P r.0 × ((ms' : List Message) × (r.1 ≡ with_messages c ms')))
          (m (with_messages c ms))

module _ {A : Type 0} {c : Context} {P : A → Type 0} where
  pub Yields-pure : (a : A) → P a → Yields c P (λ c. ok (a, c))
  Yields-pure a p = record { apply = λ ms. returns (p, (ms, refl)) }

  pub Yields-weaken :
      {Q : A → Type 0} {m : Elaborates A} → ((a : A) → P a → Q a) → Yields c P m → Yields c Q m
  Yields-weaken g h = record { apply = λ ms. Ends-weaken (λ r p. (g r.0 p.0, p.1)) (h.apply ms) }

  infixl 1 ◌⇒◌
  pub ◌⇒◌ :
      {B : Type 0} {Q : B → Type 0} {m : Elaborates A} {f : A → Elaborates B}
      → Yields c P m
      → ((a : A) → P a → Yields c Q (f a))
      → Yields c Q (λ c. m c >>= λ r. f r.0 r.1)
  ◌⇒◌ {B} {Q} {m} {f} h k = record {
    apply = λ ms. Ends-bind (h.apply ms) λ r p.
        subst
          (λ (d : Context).
            Ends (λ q. Q q.0 × ((ms' : List Message) × (q.1 ≡ with_messages c ms'))) (f r.0 d))
          (sym p.1.1) ((k r.0 p.0).apply p.1.0);
  }

-- A method of which only the context matters.
pub Yields-Quiet :
    {A : Type 0} {c : Context} {m : Elaborates A} → Quiet m → Yields c (λ _. Unit {0}) m
Yields-Quiet {A} {c} h = record {
  apply = λ ms. Ends-weaken (λ r p. (tt, (_, p.1))) (h.apply (with_messages c ms));
}

Ends-self : {A : Type 0} (m : Outcome ⊥ A) → Ends (λ a. m ≡ ok a) m
Ends-self (ok a) = returns refl
Ends-self (err e) = absurd e
Ends-self (panic x) = panics
Ends-self timeout = expires

module _ {c : Context} (fuel : ℕ) where
  pub Yields-eval : (t : Core.Term) → Yields c (λ v. EvaluatesTo (core_context c) t v) (eval fuel t)
  unfolding eval
  Yields-eval t = record {
    apply = λ ms.
        Ends-bind (Ends-self (Eval.eval fuel c.globals c.item_definitions c.local_definitions t))
          λ v e. returns (
            (
              fuel,
              λ m le. eval_mono c.globals c.item_definitions fuel m c.local_definitions t v le e,
            ),
            (ms, refl),
          );
  }

  pub Yields-is_equal :
      (v w : Value) → Yields c (λ b. b ≡ true → AreEqual (core_context c) v w) (is_equal fuel v w)
  unfolding is_equal
  Yields-is_equal v w = record {
    apply = λ ms.
        Ends-bind (Ends-self (Equal.is_equal fuel c.globals c.item_definitions v w)) λ b e.
          returns (
            λ t. (
              fuel,
              λ m le. is_equal_mono c.globals c.item_definitions fuel m v w true le (rw t at e),
            ),
            (ms, refl),
          );
  }

  pub Yields-field :
      (d : FieldDeclarations) (v : Value) (label : String)
      → Yields c
          (λ o. (w : Value) → o ≡ some w → HasField (core_context c) d v label w)
          (reads λ c. get_field_type (Eval.eval fuel c.globals c.item_definitions) d v label)
  Yields-field d v label = record {
    apply = λ ms.
        Ends-bind
          (Ends-self (get_field_type (Eval.eval fuel c.globals c.item_definitions) d v label))
          λ o e. returns (
            λ w is. (
              fuel,
              λ m le.
                  get_field_type_mono c.globals c.item_definitions fuel m d v label (some w) le
                    (rw is at e),
            ),
            (ms, refl),
          );
  }

module _ (c : Context) where
  Ends-declarations :
      (ms : List Message) (o : Option (ItemData × Elims))
      → Ends
          (λ (r : Option FieldDeclarations × Context).
            (Checked.declarations_of_item o ≡ ok r.0)
            × ((ms' : List Message) × (r.1 ≡ with_messages c ms')))
          (declarations_of_item o >>= λ d. ok (d, with_messages c ms))
  Ends-declarations ms none = returns (refl, (ms, refl))
  Ends-declarations ms (some (item, elims)) =
      Ends-bind (Ends-self (try_field_declarations item elims)) λ d e. returns (e, (ms, refl))

  pub Yields-force :
      (v : Value)
      → Yields c
          (λ o. Checked.force_field_declarations v (core_context c) ≡ ok (o, core_context c))
          (force_field_declarations v)
  unfolding force_field_declarations force_item Checked.force_field_declarations Checked.force_item
  Yields-force v = elim (Option-cases (try_item v)) [
    | inl e ↦ record { apply = λ ms. rw e (returns (refl, (ms, refl))) }
    | inr ((name, elims), e) ↦ elim (Option-cases (get_entry c.item_definitions name)) [
      | inl e' ↦ record { apply = λ ms. rw (e, e') panics }
      | inr (item, e') ↦ record {
        apply = λ ms.
            rw (e, e')
              (Ends-weaken (λ r p. (rw (p.0), p.1)) (Ends-declarations ms (some (item, elims))));
      }
    ]
  ]
