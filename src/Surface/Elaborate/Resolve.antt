-- ===== src/Surface/Elaborate/Resolve.antt =====
-- fathom/src/pass/surface_to_core.rs: the arm of `synth_type` for names.
use ddl.Prelude.{ℕ, String, Option, some, none, [], ◌∷◌, ◌++◌, ◌≡◌, ◌⊎◌, inl, inr, refl}
use ddl.Outcome.{Outcome, ok, err, panic, timeout}
use ddl.Outcome as Outcomes
use ddl.Outcome.Post.{Ends, returns, panics, expires, Ends-bind, Ends-ok}
use ddl.Core.Term as Core
use ddl.Core.Term.{get_entry}
use ddl.Core.Globals
use ddl.Core.Semantics.Value.{Value}
use ddl.Core.Semantics.Eval
use ddl.Surface.Term.{Term}
use ddl.Surface.Distill.{Display, from_term}
use ddl.Surface.Elaborate.Message.{surface_to_core, var_name_not_found}
use ddl.Surface.Elaborate.Context.{
  Context, Elaborates, ◌>>=◌, ◌>>◌, pure, get_local, push_message, eval,
}
use ddl.Surface.Elaborate.Names.{IsAligned, from_term-get_local}

abbrev pub synth_global :
    ℕ → String → Option (Core.Term × Option Core.Term) → Elaborates (Core.Term × Value)
synth_global fuel name (some (type', _)) =
    eval fuel type' >>= λ value. pure (Core.Term.global name, value)
synth_global fuel name none =
    push_message (surface_to_core (var_name_not_found name)) >> pure (Core.Term.error, Value.error)

abbrev pub synth_item : ℕ → String → Option Value → Elaborates (Core.Term × Value)
synth_item fuel name (some type') = pure (Core.Term.item name, type')
synth_item fuel name none = λ c. synth_global fuel name (Globals.get c.globals name) c

abbrev pub synth_local : ℕ → String → Option (Value × ℕ) → Elaborates (Core.Term × Value)
synth_local fuel name (some (type', index)) = pure (Core.Term.local index, type')
synth_local fuel name none = λ c. synth_item fuel name (get_entry c.item_declarations name) c

-- A local hides an item of the same name, and an item hides a global.
unfoldable pub synth_name : ℕ → String → Elaborates (Core.Term × Value)
unfolding get_local push_message eval
synth_name fuel name = λ c. synth_local fuel name (get_local c name) c

-- Neither a local nor an item nor a global has the name.
abbrev pub IsMissing : Context → String → Type 0
IsMissing c name =
    (get_local c name ≡ none)
    × (get_entry c.item_declarations name ≡ none)
    × (Globals.get c.globals name ≡ none)

-- A core term of this name, with its declared type, which nothing hides: an item that no local hides,
-- or a global that no local and no item hides.
abbrev pub IsVisible : ℕ → Context → String → Core.Term → Value → Type 0
IsVisible fuel c name (Core.Term.local index) v = get_local c name ≡ some (v, index)
IsVisible fuel c name (Core.Term.item _) v =
    (get_local c name ≡ none) × (get_entry c.item_declarations name ≡ some v)
IsVisible fuel c name (Core.Term.global _) v =
    (get_local c name ≡ none)
    × (get_entry c.item_declarations name ≡ none)
    × ((type' : Core.Term) × (definition : Option Core.Term) × (Globals.get c.globals name
          ≡ some (type', definition))
        × (Eval.eval fuel c.globals c.item_definitions c.local_definitions type' ≡ ok v))
IsVisible fuel c name _ v = ⊥

value_kept :
    {c : Context} (m : Outcome ⊥ Value)
    → Ends (λ (r : Value × Context). (m ≡ ok r.0) × (r.1 ≡ c)) (Outcomes.◌>>=◌ m λ v. ok (v, c))
value_kept (ok v) = returns (refl, refl)
value_kept (err x) = absurd x
value_kept (panic x) = panics
value_kept timeout = expires

module _ (display : Display) (fuel : ℕ) (name : String) (c : Context) where
  -- The name is missing, and is reported; or it is resolved to what distills to it.
  abbrev pub IsNamed : (Core.Term × Value) × Context → Type 0
  IsNamed ((t, v), d) =
      (IsMissing c name
        × (t ≡ Core.Term.error)
        × (v ≡ Value.error)
        × (d ≡ record c {
          messages = c.messages ++ (surface_to_core (var_name_not_found name) ∷ []);
        }))
      ⊎ ((from_term display c.core_to_surface t ≡ Term.name name)
          × IsVisible fuel c name t v
          × (d ≡ c))

  eval_unchanged :
      (t : Core.Term)
      → Ends
          (λ r.
            (Eval.eval fuel c.globals c.item_definitions c.local_definitions t ≡ ok r.0)
            × (r.1 ≡ c))
          (eval fuel t c)
  unfolding eval
  eval_unchanged t = value_kept (Eval.eval fuel c.globals c.item_definitions c.local_definitions t)

  synth_global-IsNamed :
      (o : Option (Core.Term × Option Core.Term))
      → get_local c name ≡ none
      → get_entry c.item_declarations name ≡ none
      → Globals.get c.globals name ≡ o
      → Ends IsNamed (synth_global fuel name o c)
  unfolding push_message from_term
  synth_global-IsNamed none no_local no_item e =
      returns (inl ((no_local, no_item, e), refl, refl, refl))
  synth_global-IsNamed (some (t, d)) no_local no_item e =
      Ends-bind (eval_unchanged t)
        λ r h. returns (inr (refl, (no_local, no_item, (t, d, e, h.0)), h.1))

  synth_item-IsNamed :
      (o : Option Value)
      → get_local c name ≡ none
      → get_entry c.item_declarations name ≡ o
      → Ends IsNamed (synth_item fuel name o c)
  unfolding from_term
  synth_item-IsNamed none no_local e =
      synth_global-IsNamed (Globals.get c.globals name) no_local e refl
  synth_item-IsNamed (some v) no_local e = returns (inr (refl, (no_local, e), refl))

  synth_local-IsNamed :
      (o : Option (Value × ℕ))
      → IsAligned c
      → get_local c name ≡ o
      → Ends IsNamed (synth_local fuel name o c)
  synth_local-IsNamed none aligned e =
      synth_item-IsNamed (get_entry c.item_declarations name) e refl
  synth_local-IsNamed (some (t, index)) aligned e =
      returns (inr (from_term-get_local display c aligned name t index e, e, refl))

  -- Where the names for distillation are those of the locals, fewer than 2 ^ 32, a name that is
  -- elaborated has one of two results. No local, item or global has the name: it is an error, with one
  -- message at the end of the others, that the name is not found. Or it is the local that is found for
  -- the name, an item where no local has the name, or a global where no local and no item has it: with
  -- its declared type, which is evaluated for a global. Then the core term distills to the name again,
  -- and the context is as it was.
  pub synth_name-IsNamed :
      (t : Core.Term) (v : Value) (d : Context)
      → IsAligned c
      → synth_name fuel name c ≡ ok ((t, v), d)
      → IsNamed ((t, v), d)
  unfolding synth_name
  synth_name-IsNamed t v d aligned e =
      Ends-ok (synth_local-IsNamed (get_local c name) aligned refl) e
