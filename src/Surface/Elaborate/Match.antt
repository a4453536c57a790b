-- ===== src/Surface/Elaborate/Match.antt =====
-- fathom/src/pass/surface_to_core.rs: match expressions.
use text.Mathlib.Text.{◌==◌ as str_eq}
use ddl.Prelude.{ℕ, String, Option, some, none, if◌then◌else◌}
use ddl.Prelude.Int.{ℤ, ltb_ℤ}
use ddl.Location.{generated}
use ddl.Literal.Parse.{number_to_big_int}
use ddl.Core.Term as Core
use ddl.Core.Term.{get_branch}
use ddl.Core.Semantics.Value.{Head, Value, stuck, no_elims}
use ddl.Surface.Term.{Term, Pattern, Arms, no_arms, arm}
use ddl.Surface.Elaborate.Message.{
  surface_to_core, not_yet_implemented, unreachable_pattern, no_default_pattern,
  unsupported_pattern_type,
}
use ddl.Surface.Elaborate.Context.{Elaborates, ◌>>=◌, ◌>>◌, pure, push_message}
use ddl.Surface.Elaborate.Host.{Host, Typed, parses, reject_value}

-- `BTreeMap::insert` for a key that is not there.
abbrev pub insert_branch : ℤ → Core.Term → Core.Branches → Core.Branches
insert_branch value term Core.Branches.no_branches =
    Core.Branches.branch value term Core.Branches.no_branches
insert_branch value term (Core.Branches.branch value' term' rest) =
    if ltb_ℤ value value'
    then Core.Branches.branch value term (Core.Branches.branch value' term' rest)
    else Core.Branches.branch value' term' (insert_branch value term rest)

abbrev pub unreachable : {A : Type 0} → A → Elaborates A
unreachable a = push_message (surface_to_core unreachable_pattern) >> pure a

abbrev pub place_new : ℤ → Core.Term → Core.Branches → Option Core.Term → Elaborates Core.Branches
place_new value term branches none = pure (insert_branch value term branches)
place_new value term branches (some _) = unreachable branches

-- After a number: a literal that was refused is skipped, and one behind a default or another of the
-- same value is unreachable.
abbrev pub place_branch :
    Option ℤ → Core.Term → Core.Branches → Option Core.Term → Elaborates Core.Branches
place_branch none term branches default = pure branches
place_branch (some value) term branches none =
    place_new value term branches (get_branch branches value)
place_branch (some value) term branches (some _) = unreachable branches

-- After a name.
abbrev pub place_default : Core.Term → Option Core.Term → Elaborates (Option Core.Term)
place_default term none = pure (some term)
place_default term (some default) = unreachable (some default)

abbrev pub default_or_error : Option Core.Term → Elaborates Core.Term
default_or_error (some default) = pure default
default_or_error none = push_message (surface_to_core no_default_pattern) >> pure Core.Term.error

module _ (host : Host) (fuel : ℕ) (check_type : Term → Value → Elaborates Core.Term) where
  -- The loop of `from_int_branches`, and what comes after it.
  unfoldable pub from_int_branches :
      Value → Arms → Core.Branches → Option Core.Term → Elaborates (Core.Branches × Core.Term)
  unfolding number_to_big_int parses
  from_int_branches expected no_arms branches default = do
    last ← default_or_error default
    pure (branches, last)
  from_int_branches expected (arm (Pattern.number_literal source) term rest) branches default = do
    core_term ← check_type term expected
    value ← parses (number_to_big_int generated host.lexers (host.lexer source))
    branches' ← place_branch value core_term branches default
    from_int_branches expected rest branches' default
  from_int_branches expected (arm (Pattern.name _) term rest) branches default = do
    core_term ← check_type term expected
    default' ← place_default core_term default
    from_int_branches expected rest branches default'

  abbrev pub match_int : Core.Term → Arms → Value → Elaborates Core.Term
  match_int head arms expected = do
    (branches, default) ← from_int_branches expected arms Core.Branches.no_branches none
    pure (Core.Term.int_elim head branches default)

  abbrev pub match_named : String → Core.Term → Value → Arms → Value → Elaborates Core.Term
  match_named name head head_type arms expected =
      if str_eq name "Bool"
      then push_message (not_yet_implemented "boolean patterns") >> pure Core.Term.error
      else if str_eq name "Int"
      then match_int head arms expected
      else reject_value host fuel head_type unsupported_pattern_type

  -- By the type of the head.
  abbrev pub match_head : Typed → Arms → Value → Elaborates Core.Term
  match_head (head, Value.error) arms expected = pure Core.Term.error
  match_head (head, stuck (Head.global name) no_elims) arms expected =
      match_named name head (stuck (Head.global name) no_elims) arms expected
  match_head (head, head_type) arms expected =
      reject_value host fuel head_type unsupported_pattern_type
