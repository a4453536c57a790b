-- ===== src/Surface/Elaborate/Sound/Terms.antt =====
-- fathom/src/pass/surface_to_core.rs: fathom/src/lang/core/typing.rs accepts what `synth_type`,
-- `check_type` and `is_type` elaborate.
use ddl.Prelude.{ℕ, zero, suc, ◌≡◌, ap}
use ddl.Outcome.{ok}
use ddl.Outcome.Post.{Ends-ok, expires}
use ddl.Core.Term as Core
use ddl.Core.Semantics.Value.{Value}
use ddl.Core.Typing.Derives.{HasType, IsAccepted}
use ddl.Surface.Term.{Term}
use ddl.Surface.Elaborate.Context.{Context}
use ddl.Surface.Elaborate.Host.{Host}
use ddl.Surface.Elaborate.Judgements.{synth_type, check_type, is_type}
use ddl.Surface.Elaborate.Sound.{core_context, IsInSync, Yields}
use ddl.Surface.Elaborate.Sound.Direct.{IsDirect, Accepts, Types}
use ddl.Surface.Elaborate.Sound.Check.{Yields-check_term}
use ddl.Surface.Elaborate.Sound.Synth.{Yields-synth_term, Yields-type, IsSorted}

module _ (host : Host) (c : Context) (synced : IsInSync c) where
  Yields-both :
      (fuel : ℕ)
      → ((t : Term) → IsDirect t → Yields c (Types c t) (synth_type host fuel t))
        × ((t : Term) (v : Value) → IsDirect t → Yields c (Accepts c v) (check_type host fuel t v))
  unfolding synth_type
  Yields-both zero =
      (λ t d. record { apply = λ ms. expires }, λ t v d. record { apply = λ ms. expires })
  Yields-both (suc fuel) =
      let (ks, kc) = Yields-both fuel in
      (
        λ t d. record { apply = (Yields-synth_term host fuel _ _ c synced ks kc t d).apply },
        λ t v d. record { apply = (Yields-check_term host fuel _ _ c ks kc t v d).apply },
      )

  pub Yields-check_type :
      (fuel : ℕ) (t : Term) (v : Value)
      → IsDirect t
      → Yields c (Accepts c v) (check_type host fuel t v)
  Yields-check_type fuel = (Yields-both fuel).1

  pub Yields-synth_type :
      (fuel : ℕ) (t : Term) → IsDirect t → Yields c (Types c t) (synth_type host fuel t)
  Yields-synth_type fuel = (Yields-both fuel).0

  pub Yields-is_type :
      (fuel : ℕ) (t : Term) → IsDirect t → Yields c (IsSorted c) (is_type host fuel t)
  unfolding is_type
  Yields-is_type fuel =
      Yields-type host fuel _ _ c synced (Yields-synth_type fuel) (Yields-check_type fuel)

-- In a context in which every local has a type and a value, fewer than 2 ^ 32: the core term that
-- a surface term is elaborated to has the type that comes with it. In the core context with the same
-- environments, `synth_type` synthesizes the type with enough fuel, and leaves no message. The
-- elaboration changes the messages only. The surface term has no struct terms, no application without
-- arguments and no match on a conditional; it may have errors.
pub synth_type-HasType :
    (host : Host) (fuel : ℕ) (c d : Context) (t : Term) (u : Core.Term) (v : Value)
    → IsInSync c
    → IsDirect t
    → synth_type host fuel t c ≡ ok ((u, v), d)
    → HasType (core_context c) u v × (core_context d ≡ core_context c)
synth_type-HasType host fuel c d t u v synced direct e =
    let (h, (ms, changed)) =
      Ends-ok ((Yields-synth_type host c synced fuel t direct).apply c.messages) e in
    (h.0, ap core_context changed)

-- In a context in which every local has a type and a value, fewer than 2 ^ 32: the core term to which
-- `check_type` elaborates a surface term at a type is accepted at that type. In the core context with
-- the same environments, the core `check_type` ends with enough fuel, and leaves no message. The
-- elaboration changes the messages only. The surface term has no struct terms, no application without
-- arguments and no match on a conditional; it may have errors.
pub check_type-IsAccepted :
    (host : Host) (fuel : ℕ) (c d : Context) (t : Term) (u : Core.Term) (v : Value)
    → IsInSync c
    → IsDirect t
    → check_type host fuel t v c ≡ ok (u, d)
    → IsAccepted (core_context c) u v × (core_context d ≡ core_context c)
check_type-IsAccepted host fuel c d t u v synced direct e =
    let (h, (ms, changed)) =
      Ends-ok ((Yields-check_type host c synced fuel t v direct).apply c.messages) e in
    (h, ap core_context changed)
