-- ===== src/Outcome.antt =====
-- How a run of Rust code ends: the results of `Result<A, E>`, a panic or undefined behaviour, and
-- the end of the fuel that a model of unbounded recursion takes.
pub mod Post
pub mod Steps
use ddl.Prelude.{Bool, true, false, if◌then◌else◌, ◌≡◌, refl}

-- What ends a run for good: an `unwrap` of `None`, an explicit `panic!`, a slice or an unchecked
-- access out of range, an arithmetic overflow.
pub data Fault : Type 0 where
  unwrap_none explicit_panic out_of_bounds arithmetic_overflow : Fault

pub data Outcome {ℓ} (E : Type 0) (A : Type ℓ) : Type ℓ where
  ok : A → Outcome E A
  err : E → Outcome E A
  panic : Fault → Outcome E A
  timeout : Outcome E A

infixl 5 ◌>>=◌
abbrev pub ◌>>=◌ {ℓ κ} :
    {E : Type 0} {A : Type ℓ} {B : Type κ} → Outcome E A → (A → Outcome E B) → Outcome E B
ok a >>= f = f a
err e >>= f = err e
panic x >>= f = panic x
timeout >>= f = timeout

-- A chain that is successful has a successful start, and its value comes from the rest.
pub ok-after {ℓ κ} :
    {E : Type 0} {A : Type ℓ} {B : Type κ} {last : B} (start : Outcome E A) (rest : A → Outcome E B)
    → (start >>= rest) ≡ ok last
    → (first : A) × (start ≡ ok first) × (rest first ≡ ok last)
ok-after timeout rest e = cc
ok-after (panic x) rest e = cc
ok-after (err x) rest e = cc
ok-after (ok first) rest e = (first, refl, e)

-- `m ⊑ n`: the second run ends like the first, unless the first ran out of fuel.
infix 50 ◌⊑◌
pub data ◌⊑◌ {ℓ} {E : Type 0} {A : Type ℓ} : Outcome E A → Outcome E A → Type ℓ where
  below : {n : Outcome E A} → timeout ⊑ n
  same : {m : Outcome E A} → m ⊑ m

module _ {E : Type 0} {A B : Type 0} where
  pub >>=-⊑ :
      {m n : Outcome E A} {f g : A → Outcome E B}
      → m ⊑ n
      → ((a : A) → f a ⊑ g a)
      → (m >>= f) ⊑ (n >>= g)
  >>=-⊑ below h = below
  >>=-⊑ (same {m = ok a}) h = h a
  >>=-⊑ (same {m = err e}) h = same
  >>=-⊑ (same {m = panic x}) h = same
  >>=-⊑ (same {m = timeout}) h = same

module _ {E : Type 0} {A : Type 0} where
  pub if-⊑ :
      (b : Bool) {m m' n n' : Outcome E A}
      → m ⊑ m'
      → n ⊑ n'
      → (if b then m else n) ⊑ (if b then m' else n')
  if-⊑ true p q = p
  if-⊑ false p q = q

  pub ⊑-ok : {m n : Outcome E A} {a : A} → m ⊑ n → m ≡ ok a → n ≡ ok a
  ⊑-ok below h = cc
  ⊑-ok same h = h
