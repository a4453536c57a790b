-- ===== src/Literal/Float.antt =====
-- fathom/src/literal.rs: `number_to_float`, over the arithmetic of the type of floats.
use ddl.Prelude.{ℕ, zero, suc, List, [], ◌∷◌, true, false, Option, none, some, ltb}
use ddl.Location.{Location, Range}
use ddl.Literal.Token.{
  Sign, positive, negative, Base, decimal, to_u8, Digit10, LiteralParseMessage, expected_digit,
  expected_digit_separator_or_exp, expected_digit_separator_frac_or_exp,
  float_literal_exponent_not_supported, unsupported_float_literal_base, Lexers,
}
use ddl.Literal.Parse.{
  Parses, ◌>>=◌, pure, report, token_location, Start, expect_numeric_literal_start,
}

-- What the code calls of `num_traits::Float`.
pub record Floats : Type 1 where
  pub Float : Type 0
  pub zero_float : Float
  pub add : Float → Float → Float
  pub sub : Float → Float → Float
  pub mul : Float → Float → Float
  pub div : Float → Float → Float
  pub powi : Float → ℕ → Float
  pub from_u8 : ℕ → Float

-- How a loop over digits ends: with the source, at a period with the tokens after it, or at the start
-- of an exponent. The first range is the span of the lexer.
pub data Stop : Type 0 where
  at_end : Range → Stop
  at_fractional : Range → List (Digit10 × Range) → Range → Stop
  at_exponent : Range → Stop

module _ (location : Location) (floats : Floats) where
  unfoldable pub add_float_digit : Sign → Base → floats.Float → ℕ → floats.Float
  add_float_digit positive base float digit =
      floats.add (floats.mul float (floats.from_u8 (to_u8 base))) (floats.from_u8 digit)
  add_float_digit negative base float digit =
      floats.sub (floats.mul float (floats.from_u8 (to_u8 base))) (floats.from_u8 digit)

  abbrev pub digit_or : (Location → Base → LiteralParseMessage) → Range → ℕ → LiteralParseMessage
  digit_or other span zero = expected_digit (token_location location span) decimal
  digit_or other span (suc _) = other (token_location location span) decimal

  abbrev pub Digits : Type 0
  Digits = floats.Float × ℕ × Stop

  -- The loop over the digits before a period.
  unfoldable pub integer_digits :
      Sign → floats.Float → ℕ → List (Digit10 × Range) → Range → Parses Digits
  unfolding add_float_digit report token_location
  integer_digits sign float n [] end_span = pure (float, n, at_end end_span)
  integer_digits sign float n ((Digit10.digit digit, span) ∷ rest) end_span = elim (ltb digit 10) [
    | true ↦ integer_digits sign (add_float_digit sign decimal float digit) (suc n) rest end_span
    | false ↦ report (digit_or expected_digit_separator_frac_or_exp span n)
  ]
  integer_digits sign float zero ((Digit10.separator, span) ∷ rest) end_span =
      report (expected_digit (token_location location span) decimal)
  integer_digits sign float (suc n) ((Digit10.separator, span) ∷ rest) end_span =
      integer_digits sign float (suc n) rest end_span
  integer_digits sign float n ((Digit10.start_fractional, span) ∷ rest) end_span =
      pure (float, n, at_fractional span rest end_span)
  integer_digits sign float n ((Digit10.start_exponent, span) ∷ rest) end_span =
      pure (float, n, at_exponent span)
  integer_digits sign float n ((Digit10.error, span) ∷ rest) end_span =
      report (digit_or expected_digit_separator_frac_or_exp span n)

  -- The loop over the digits after a period.
  unfoldable pub fractional_digits :
      Sign → floats.Float → ℕ → List (Digit10 × Range) → Range → Parses Digits
  unfolding add_float_digit report token_location
  fractional_digits sign frac n [] end_span = pure (frac, n, at_end end_span)
  fractional_digits sign frac n ((Digit10.digit digit, span) ∷ rest) end_span =
      elim (ltb digit 10) [
        | true ↦
            fractional_digits sign (add_float_digit sign decimal frac digit) (suc n) rest end_span
        | false ↦ report (digit_or expected_digit_separator_or_exp span n)
      ]
  fractional_digits sign frac zero ((Digit10.separator, span) ∷ rest) end_span =
      report (expected_digit (token_location location span) decimal)
  fractional_digits sign frac (suc n) ((Digit10.separator, span) ∷ rest) end_span =
      fractional_digits sign frac (suc n) rest end_span
  fractional_digits sign frac n ((Digit10.start_exponent, span) ∷ rest) end_span =
      pure (frac, n, at_exponent span)
  fractional_digits sign frac n ((Digit10.start_fractional, span) ∷ rest) end_span =
      report (digit_or expected_digit_separator_or_exp span n)
  fractional_digits sign frac n ((Digit10.error, span) ∷ rest) end_span =
      report (digit_or expected_digit_separator_or_exp span n)

  abbrev pub span_of : Stop → Range
  span_of (at_end span) = span
  span_of (at_fractional span _ _) = span
  span_of (at_exponent span) = span

  -- The tests after the loops, and the last one.
  abbrev pub unless_none : ℕ → Stop → Parses floats.Float → Parses floats.Float
  unless_none zero stop m = report (expected_digit (token_location location (span_of stop)) decimal)
  unless_none (suc _) stop m = m

  abbrev pub unless_exponent : floats.Float → Stop → Parses floats.Float
  unless_exponent float (at_exponent span) =
      report (float_literal_exponent_not_supported (token_location location span))
  unless_exponent float _ = pure float

  abbrev pub add_fraction : floats.Float → Digits → Parses floats.Float
  add_fraction float (frac, n, stop) = unless_none n stop (
      unless_exponent (floats.add float (floats.div frac (floats.powi (floats.from_u8 10) n))) stop)

  abbrev pub after_integer : Sign → floats.Float → Stop → Parses floats.Float
  after_integer sign float (at_fractional span rest end_span) =
      fractional_digits sign floats.zero_float 0 rest end_span >>= add_fraction float
  after_integer sign float stop = unless_exponent float stop

  abbrev pub from_digits : Sign → Digits → Parses floats.Float
  from_digits sign (float, n, stop) = unless_none n stop (after_integer sign float stop)

  -- The float and the number of digits before the loop.
  abbrev pub float_start : Sign → Base → Option ℕ → floats.Float × ℕ
  float_start sign base none = (floats.zero_float, 0)
  float_start sign base (some digit) = (add_float_digit sign base floats.zero_float digit, 1)

  module _ (lexers : Lexers) where
    abbrev pub float_from : Start location lexers → Parses floats.Float
    float_from (sign, decimal, start_digit, lexer) =
        let (float, n) = float_start sign decimal start_digit in
        let digits = lexers.morph10 lexer in
        integer_digits sign float n digits.tokens digits.end_span >>= from_digits sign
    float_from (sign, base, start_digit, lexer) =
        report (unsupported_float_literal_base location base)

    unfoldable pub number_to_float : lexers.Lexer → Parses floats.Float
    unfolding expect_numeric_literal_start integer_digits fractional_digits add_float_digit report
        token_location
    number_to_float lexer = expect_numeric_literal_start location lexers lexer >>= float_from
