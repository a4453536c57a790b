-- ===== src/Core/Typing/Quiet.antt =====
-- fathom/src/lang/core/typing.rs: methods of the context that only add messages to it.
pub mod Arms
pub mod Check
pub mod Grows
pub mod Modules
use mathlib.Core.List.{append-nil, append_assoc}
use ddl.Prelude.{ℕ, List, [], ◌∷◌, ◌++◌, ◌≡◌, refl, sym, ap, ◌∙◌}
use ddl.Outcome.{Outcome}
use ddl.Outcome.Post.{Ends, returns, Ends-bind, Ends-any, Ends-weaken}
use ddl.Core.Term.{Term}
use ddl.Core.Semantics.Value.{Value}
use ddl.Core.Typing.Message.{CoreTypingMessage}
use ddl.Core.Typing.Context.{
  Context, Checks, ◌>>=◌, pure, reads, push_message, force_item, force_field_declarations, eval,
  read_back, is_equal,
}

-- The second context is the first with more messages.
abbrev pub Appends : Context → Context → Type 0
Appends c c' = (more : List CoreTypingMessage) × (c' ≡ record c { messages = c.messages ++ more })

pub Appends-refl : (c : Context) → Appends c c
Appends-refl c = (
  [],
  ap (λ (ms : List CoreTypingMessage). record c { messages = ms }) (sym (append-nil c.messages)),
)

pub Appends-trans : (c d e : Context) → Appends c d → Appends d e → Appends c e
Appends-trans c d e (m, p) (n, q) = (
  m ++ n,
  q
      ∙ rw p (
          ap (λ (ms : List CoreTypingMessage). record c { messages = ms })
            (append_assoc c.messages m n)),
)

-- A method that only adds messages, if it ends.
pub record Quiet {A : Type 0} (m : Checks A) : Type 0 where
  pub apply : (c : Context) → Ends (λ r. Appends c r.1) (m c)

module _ {A : Type 0} where
  pub Quiet-pure : (a : A) → Quiet (pure a)
  Quiet-pure a = record { apply = λ c. returns (Appends-refl c) }

  pub Quiet-reads : (f : Context → Outcome ⊥ A) → Quiet (reads f)
  Quiet-reads f = record {
    apply = λ c.
        Ends-bind (Ends-any {P = λ _. Unit {0}} (f c) (λ _. tt)) λ a _. returns (Appends-refl c);
  }

  infixl 1 ◌⟫◌
  pub ◌⟫◌ :
      {B : Type 0} {m : Checks A} {f : A → Checks B}
      → Quiet m
      → ((a : A) → Quiet (f a))
      → Quiet (m >>= f)
  h ⟫ k = record {
    apply = λ c.
        Ends-bind (h.apply c)
          λ r p. Ends-weaken (λ q s. Appends-trans c r.1 q.1 p s) ((k r.0).apply r.1);
  }

pub Quiet-push_message : (message : CoreTypingMessage) → Quiet (push_message message)
unfolding push_message
Quiet-push_message message = record { apply = λ c. returns (message ∷ [], refl) }

Quiet-force_item : (value : Value) → Quiet (force_item value)
unfolding force_item
Quiet-force_item value = Quiet-reads _

pub Quiet-force : (value : Value) → Quiet (force_field_declarations value)
unfolding force_field_declarations
Quiet-force value = Quiet-force_item value ⟫ λ item. Quiet-reads _

pub Quiet-eval : (fuel : ℕ) (term : Term) → Quiet (eval fuel term)
unfolding eval
Quiet-eval fuel term = Quiet-reads _

pub Quiet-read_back : (fuel : ℕ) (value : Value) → Quiet (read_back fuel value)
unfolding read_back
Quiet-read_back fuel value = Quiet-reads _

pub Quiet-is_equal : (fuel : ℕ) (value0 value1 : Value) → Quiet (is_equal fuel value0 value1)
unfolding is_equal
Quiet-is_equal fuel value0 value1 = Quiet-reads _
