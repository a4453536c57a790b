-- ===== src/Surface/Elaborate/Quiet.antt =====
-- fathom/src/pass/surface_to_core.rs: methods of the context that only add messages to it.
pub mod Arms
pub mod Synth
use mathlib.Core.List.{append-nil, append_assoc}
use ddl.Prelude.{ℕ, String, List, [], ◌∷◌, ◌++◌, Option, some, none, ◌≡◌, refl, sym, ap, ◌∙◌}
use ddl.Outcome.{Outcome, ok}
use ddl.Outcome.Post.{Ends, returns}
use ddl.Outcome.Steps.{Preorder, Steps, Steps-pure, Steps-reads, ◌⟫◌}
use ddl.Core.Term as Core
use ddl.Core.Term.{get_entry}
use ddl.Core.Globals
use ddl.Core.Semantics.Value.{Value}
use ddl.Literal.Parse.{Parses}
use ddl.Surface.Term.{Term}
use ddl.Surface.Distill.{Display, from_term}
use ddl.Surface.Elaborate.Message.{Message, SurfaceToCoreMessage}
use ddl.Surface.Elaborate.Context.{
  Context, Elaborates, push_message, force_item, force_field_declarations, eval, read_back,
  is_equal, distill, read_back_to_surface, get_local,
}
use ddl.Surface.Elaborate.Resolve.{synth_name, synth_local, synth_item, synth_global}
use ddl.Surface.Elaborate.Host.{
  Host, Typed, parses, parse_messages, reject, fail, reject_value, fail_value,
}

-- The second context is the first with more messages.
abbrev pub Appends : Context → Context → Type 0
Appends c c' = (more : List Message) × (c' ≡ record c { messages = c.messages ++ more })

pub Appends-refl : (c : Context) → Appends c c
Appends-refl c =
    ([], ap (λ (ms : List Message). record c { messages = ms }) (sym (append-nil c.messages)))

pub Appends-trans : (c d e : Context) → Appends c d → Appends d e → Appends c e
Appends-trans c d e (m, p) (n, q) = (
  m ++ n,
  q ∙ rw p (ap (λ (ms : List Message). record c { messages = ms }) (append_assoc c.messages m n)),
)

abbrev pub appending : Preorder Context
appending = record { rel = Appends; rel_refl = Appends-refl; rel_trans = Appends-trans }

-- A method that only adds messages, if it ends.
abbrev pub Quiet : {A : Type 0} → Elaborates A → Type 0
Quiet m = Steps appending m

pub Quiet-pure : {A : Type 0} (a : A) → Quiet (λ c. ok (a, c))
Quiet-pure a = Steps-pure a

pub Quiet-push_message : (message : Message) → Quiet (push_message message)
unfolding push_message
Quiet-push_message message = record { apply = λ c. returns (message ∷ [], refl) }

pub Quiet-parses : {A : Type 0} (m : Parses A) → Quiet (parses m)
unfolding parses
Quiet-parses m = record { apply = λ c. returns (parse_messages (m []).1, refl) }

Quiet-force_item : (value : Value) → Quiet (force_item value)
unfolding force_item
Quiet-force_item value = Steps-reads _

pub Quiet-force : (value : Value) → Quiet (force_field_declarations value)
unfolding force_field_declarations
Quiet-force value = Quiet-force_item value ⟫ λ item. Steps-reads _

pub Quiet-eval : (fuel : ℕ) (term : Core.Term) → Quiet (eval fuel term)
unfolding eval
Quiet-eval fuel term = Steps-reads _

pub Quiet-is_equal : (fuel : ℕ) (value0 value1 : Value) → Quiet (is_equal fuel value0 value1)
unfolding is_equal
Quiet-is_equal fuel value0 value1 = Steps-reads _

Quiet-read_back : (fuel : ℕ) (value : Value) → Quiet (read_back fuel value)
unfolding read_back
Quiet-read_back fuel value = Steps-reads _

Quiet-distill : (display : Display) (term : Core.Term) → Quiet (distill display term)
unfolding distill
Quiet-distill display term = Steps-reads λ c. ok (from_term display c.core_to_surface term)

pub Quiet-to_surface :
    (display : Display) (fuel : ℕ) (value : Value) → Quiet (read_back_to_surface display fuel value)
unfolding read_back_to_surface
Quiet-to_surface display fuel value = Quiet-read_back fuel value ⟫ λ t. Quiet-distill display t

pub Quiet-reject : (message : SurfaceToCoreMessage) → Quiet (reject message)
Quiet-reject message = Quiet-push_message _ ⟫ λ _. Quiet-pure Core.Term.error

pub Quiet-fail : (message : SurfaceToCoreMessage) → Quiet (fail message)
Quiet-fail message = Quiet-push_message _ ⟫ λ _. Quiet-pure (Core.Term.error, Value.error)

module _ (host : Host) (fuel : ℕ) (value : Value) (message : Term → SurfaceToCoreMessage) where
  pub Quiet-reject_value : Quiet (reject_value host fuel value message)
  Quiet-reject_value = Quiet-to_surface host.display fuel value ⟫ λ t. Quiet-reject (message t)

  pub Quiet-fail_value : Quiet (fail_value host fuel value message)
  Quiet-fail_value = Quiet-to_surface host.display fuel value ⟫ λ t. Quiet-fail (message t)

module _ (fuel : ℕ) (name : String) where
  Quiet-global : (o : Option (Core.Term × Option Core.Term)) → Quiet (synth_global fuel name o)
  Quiet-global none = Quiet-fail _
  Quiet-global (some (t, _)) = Quiet-eval fuel t ⟫ λ v. Quiet-pure _

  Quiet-item : (o : Option Value) → Quiet (synth_item fuel name o)
  Quiet-item none = record { apply = λ c. (Quiet-global (Globals.get c.globals name)).apply c }
  Quiet-item (some v) = Quiet-pure _

  Quiet-local : (o : Option (Value × ℕ)) → Quiet (synth_local fuel name o)
  Quiet-local none = record {
    apply = λ c. (Quiet-item (get_entry c.item_declarations name)).apply c;
  }
  Quiet-local (some v) = Quiet-pure _

  pub Quiet-synth_name : Quiet (synth_name fuel name)
  unfolding synth_name
  Quiet-synth_name = record { apply = λ c. (Quiet-local (get_local c name)).apply c }
