-- ===== src/Ieee754.antt =====
-- fathom/src/ieee754.rs: equality of floats, as it is used in types.
use ddl.Prelude.{
  ℕ, ◌-◌, ◌/◌, ◌%◌, ◌^◌, ◌≡◌, ◌↔◌, Bool, true, ◌&&◌, ◌||◌, Option, none, some, ltb, ◌==◌,
  if◌then◌else◌, arith,
}
use ddl.Runtime.Number.{FloatBits}

-- The widths of the two implementations of the trait `Ieee754`.
pub data Width : Type 0 where
  single double : Width

-- The bits of the positive infinity: below the sign, a NaN is above it.
abbrev pub infinity : Width → ℕ
infinity single = 0x7f80_0000
infinity double = 0x7ff0_0000_0000_0000

abbrev pub sign_bit : Width → ℕ
sign_bit single = 2 ^ 31
sign_bit double = 2 ^ 63

abbrev pub is_nan : Width → FloatBits → Bool
is_nan w x = ltb (infinity w) (x.to_bits % sign_bit w)

unfoldable pub logical_eq : Width → FloatBits → FloatBits → Bool
logical_eq w value0 value1 =
    value0.to_bits == value1.to_bits || (is_nan w value0 && is_nan w value1)

-- IEEE 754: how many bits the fraction has, and how many the exponent.
abbrev fraction_bits : Width → ℕ
fraction_bits single = 23
fraction_bits double = 52

abbrev exponent_bits : Width → ℕ
exponent_bits single = 8
exponent_bits double = 11

-- The bits of a float, and nothing of a NaN: its exponent is all ones, and its fraction is not 0.
abbrev pub canonical : Width → ℕ → Option ℕ
canonical w n =
    let exponent = n / 2 ^ fraction_bits w % 2 ^ exponent_bits w in
    let fraction = n % 2 ^ fraction_bits w in
    if exponent == 2 ^ exponent_bits w - 1 && ltb 0 fraction then none else some n

-- Floats of any bits are equal exactly if they have the same bits or are both NaNs, by the exponent
-- and the fraction of IEEE 754. So every float is equal to itself, and the order of the two does not
-- matter; and where a first is equal to a second and this to a third, so is the first to the third.
pub logical_eq_equivalence :
    (w : Width) (x y z : FloatBits)
    → ((logical_eq w x y ≡ true) ↔ (canonical w x.to_bits ≡ canonical w y.to_bits))
      × (logical_eq w x x ≡ true)
      × (logical_eq w x y ≡ logical_eq w y x)
      × ((logical_eq w x y && logical_eq w y z && logical_eq w x z)
          ≡ (logical_eq w x y && logical_eq w y z))
unfolding logical_eq
logical_eq_equivalence single x y z =
    ((λ e. ground arith, λ e. ground arith), ground arith, ground arith, ground arith)
logical_eq_equivalence double x y z =
    ((λ e. ground arith, λ e. ground arith), ground arith, ground arith, ground arith)
