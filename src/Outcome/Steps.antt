-- ===== src/Outcome/Steps.antt =====
-- Methods on a state that move it along a preorder, if they end.
use ddl.Outcome.{Outcome, ok, ◌>>=◌}
use ddl.Outcome.Post.{Ends, returns, Ends-bind, Ends-any, Ends-weaken}

pub record Preorder (S : Type 0) : Type 1 where
  pub rel : S → S → Type 0
  pub rel_refl : (s : S) → rel s s
  pub rel_trans : (s t u : S) → rel s t → rel t u → rel s u

pub record Steps {S A : Type 0} (order : Preorder S) (m : S → Outcome ⊥ (A × S)) : Type 0 where
  pub apply : (s : S) → Ends (λ r. order.rel s r.1) (m s)

module _ {S A : Type 0} {order : Preorder S} where
  pub Steps-pure : (a : A) → Steps order (λ s. ok (a, s))
  Steps-pure a = record { apply = λ s. returns (order.rel_refl s) }

  -- A function that reads the state.
  pub Steps-reads : (f : S → Outcome ⊥ A) → Steps order (λ s. f s >>= λ a. ok (a, s))
  Steps-reads f = record {
    apply = λ s.
        Ends-bind (Ends-any {P = λ _. Unit {0}} (f s) (λ _. tt)) λ a _. returns (order.rel_refl s);
  }

  infixl 1 ◌⟫◌
  pub ◌⟫◌ :
      {B : Type 0} {m : S → Outcome ⊥ (A × S)} {f : A → S → Outcome ⊥ (B × S)}
      → Steps order m
      → ((a : A) → Steps order (f a))
      → Steps order (λ s. m s >>= λ r. f r.0 r.1)
  h ⟫ k = record {
    apply = λ s.
        Ends-bind (h.apply s)
          λ r p. Ends-weaken (λ q t. order.rel_trans s r.1 q.1 p t) ((k r.0).apply r.1);
  }
