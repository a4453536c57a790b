-- ===== src/Surface/Elaborate/Sound/Direct.antt =====
-- fathom/src/lang/surface.rs: the surface terms whose elaboration the core checker accepts.
use ddl.Prelude.{ℕ}
use ddl.Outcome.{ok}
use ddl.Core.Term as Core
use ddl.Core.Semantics.Value.{Value}
use ddl.Core.Typing.Derives.{HasType, IsAccepted}
use ddl.Core.Typing.Derives.Accepts.{Infers, IsAccepted-error}
use ddl.Surface.Term.{Term, Terms, Arms, no_terms, more_terms, no_arms, arm}
use ddl.Surface.Elaborate.Message.{SurfaceToCoreMessage}
use ddl.Surface.Elaborate.Context.{Context}
use ddl.Surface.Elaborate.Host.{Host, Typed, reject, reject_value}
use ddl.Surface.Elaborate.Quiet.{Quiet-push_message, Quiet-to_surface}
use ddl.Surface.Elaborate.Sound.{core_context, Yields, Yields-pure, Yields-Quiet, ◌⇒◌}

abbrev pub NotIf : Term → Type 0
NotIf (Term.if_term t u w) = ⊥
NotIf _ = Unit {0}

abbrev pub IsNonempty : Terms → Type 0
IsNonempty no_terms = ⊥
IsNonempty (more_terms t ts) = Unit {0}

-- A term without struct terms, in which every application has arguments, as the grammar has it, and
-- no match is on a conditional.
abbrev mutual
  pub IsDirect : Term → Type 0
  IsDirect (Term.ann t u) = IsDirect t × IsDirect u
  IsDirect (Term.function_type t u) = IsDirect t × IsDirect u
  IsDirect (Term.function_elim t ts) = IsDirect t × (IsNonempty ts × AreDirect ts)
  IsDirect (Term.struct_term fs) = ⊥
  IsDirect (Term.struct_elim t label) = IsDirect t
  IsDirect (Term.sequence_term ts) = AreDirect ts
  IsDirect (Term.if_term t u w) = IsDirect t × (IsDirect u × IsDirect w)
  IsDirect (Term.match_term t arms) = (IsDirect t × NotIf t) × ArmsDirect arms
  IsDirect _ = Unit {0}

  pub AreDirect : Terms → Type 0
  AreDirect no_terms = Unit {0}
  AreDirect (more_terms t ts) = IsDirect t × AreDirect ts

  pub ArmsDirect : Arms → Type 0
  ArmsDirect no_arms = Unit {0}
  ArmsDirect (arm p t arms) = IsDirect t × ArmsDirect arms

-- The core checker accepts the term at the type.
abbrev pub Accepts : Context → Value → Core.Term → Type 0
Accepts c v t = IsAccepted (core_context c) t v

-- The core checker gives the core term its type, and synthesizes one where it checks it, unless the
-- surface term is a conditional.
abbrev pub Types : Context → Term → Typed → Type 0
Types c t r = HasType (core_context c) r.0 r.1 × (NotIf t → Infers r.0)

module _ {c : Context} (v : Value) where
  pub Yields-error : Yields c (Accepts c v) (λ c. ok (Core.Term.error, c))
  Yields-error = Yields-pure Core.Term.error (IsAccepted-error v)

  pub Yields-reject : (message : SurfaceToCoreMessage) → Yields c (Accepts c v) (reject message)
  Yields-reject message = Yields-Quiet (Quiet-push_message _) ⇒ λ _ _. Yields-error

  pub Yields-reject_value :
      (host : Host) (fuel : ℕ) (w : Value) (message : Term → SurfaceToCoreMessage)
      → Yields c (Accepts c v) (reject_value host fuel w message)
  Yields-reject_value host fuel w message =
      Yields-Quiet (Quiet-to_surface host.display fuel w) ⇒ λ t _. Yields-reject (message t)
