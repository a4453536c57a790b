-- ===== src/Outcome/Post.antt =====
-- Postconditions of a run that has no errors of its own: what holds of the value, if there is one.
use mathlib.Core.Path.{subst}
use ddl.Prelude.{◌≡◌}
use ddl.Outcome.{Outcome, ok, err, panic, timeout, Fault, ◌>>=◌}

pub data Ends {ℓ} {A : Type ℓ} (P : A → Type ℓ) : Outcome ⊥ A → Type ℓ where
  returns : {a : A} → P a → Ends P (ok a)
  panics : {x : Fault} → Ends P (panic x)
  expires : Ends P timeout

module _ {ℓ} {A : Type ℓ} {P : A → Type ℓ} where
  pub Ends-bind :
      {B : Type ℓ} {Q : B → Type ℓ} {m : Outcome ⊥ A} {f : A → Outcome ⊥ B}
      → Ends P m
      → ((a : A) → P a → Ends Q (f a))
      → Ends Q (m >>= f)
  Ends-bind (returns {a} h) k = k a h
  Ends-bind panics k = panics
  Ends-bind expires k = expires

  pub Ends-weaken : {Q : A → Type ℓ} {m : Outcome ⊥ A} → ((a : A) → P a → Q a) → Ends P m → Ends Q m
  Ends-weaken g (returns h) = returns (g _ h)
  Ends-weaken g panics = panics
  Ends-weaken g expires = expires

  Ends-ok_lem : {a : A} → Ends P (ok a) → P a
  Ends-ok_lem (returns h) = h

  pub Ends-ok : {m : Outcome ⊥ A} {a : A} → Ends P m → m ≡ ok a → P a
  Ends-ok h e = Ends-ok_lem (subst (Ends P) e h)

  pub Ends-any : (m : Outcome ⊥ A) → ((a : A) → P a) → Ends P m
  Ends-any (ok a) h = returns (h a)
  Ends-any (err e) h = absurd e
  Ends-any (panic x) h = panics
  Ends-any timeout h = expires
