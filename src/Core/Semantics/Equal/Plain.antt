-- ===== src/Core/Semantics/Equal/Plain.antt =====
-- fathom/src/lang/core/semantics.rs: the values on which the spines decide equality by their parts.
use Prim.Native.Nat.{max}
use ddl.Prelude.{ℕ, suc}
use ddl.Core.Semantics.Value.{
  Value, Values, FieldValues, Elims, Elim, stuck, no_elims, more_elims, function, to_repr,
  no_values, more_values, no_fields, field,
}

-- No spine in the value has a field lookup, or a conditional with the terms that it captured.
abbrev mutual
  pub IsPlain : Value → Type 0
  IsPlain (stuck head elims) = ArePlainElims elims
  IsPlain (Value.function_type v w) = IsPlain v × IsPlain w
  IsPlain (Value.struct_term fs) = ArePlainFields fs
  IsPlain (Value.array_term vs) = ArePlain vs
  IsPlain _ = Unit {0}

  pub ArePlainElims : Elims → Type 0
  ArePlainElims no_elims = Unit {0}
  ArePlainElims (more_elims e es) = IsPlainElim e × ArePlainElims es

  pub IsPlainElim : Elim → Type 0
  IsPlainElim (function v) = IsPlain v
  IsPlainElim to_repr = Unit {0}
  IsPlainElim _ = ⊥

  pub ArePlain : Values → Type 0
  ArePlain no_values = Unit {0}
  ArePlain (more_values v vs) = IsPlain v × ArePlain vs

  pub ArePlainFields : FieldValues → Type 0
  ArePlainFields no_fields = Unit {0}
  ArePlainFields (field label v fs) = IsPlain v × ArePlainFields fs

abbrev mutual
  pub height : Value → ℕ
  height (stuck head elims) = suc (height_elims elims)
  height (Value.function_type v w) = suc (max (height v) (height w))
  height (Value.struct_term fs) = suc (height_fields fs)
  height (Value.array_term vs) = suc (height_values vs)
  height _ = 1

  pub height_elims : Elims → ℕ
  height_elims no_elims = 0
  height_elims (more_elims e es) = max (height_elim e) (height_elims es)

  pub height_elim : Elim → ℕ
  height_elim (function v) = height v
  height_elim _ = 0

  pub height_values : Values → ℕ
  height_values no_values = 0
  height_values (more_values v vs) = max (height v) (height_values vs)

  pub height_fields : FieldValues → ℕ
  height_fields no_fields = 0
  height_fields (field label v fs) = max (height v) (height_fields fs)
