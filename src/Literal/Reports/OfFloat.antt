-- ===== src/Literal/Reports/OfFloat.antt =====
-- fathom/src/literal.rs: a float literal that is refused leaves one message.
use ddl.Prelude.{ℕ, zero, suc, List, [], ◌∷◌, ltb}
use ddl.Location.{Location, Range}
use ddl.Literal.Token.{
  Sign, binary, octal, decimal, hexadecimal, Digit10, LiteralParseMessage, Lexers,
}
use ddl.Literal.Parse.{Parses, Start}
use ddl.Literal.Float.{
  Floats, Stop, at_end, at_fractional, at_exponent, add_float_digit, integer_digits,
  fractional_digits, unless_none, unless_exponent, after_integer, float_from, number_to_float,
}
use ddl.Literal.Reports.{
  Reports, Reporting, Reporting-pure, Reporting-report, Reporting-elim, ◌⟫◌, Reporting-start,
}

module _ (location : Location) (floats : Floats) where
  Reporting-integer_digits :
      (sign : Sign) (x : floats.Float) (n : ℕ) (tokens : List (Digit10 × Range)) (end_span : Range)
      → Reporting (integer_digits location floats sign x n tokens end_span)
  unfolding integer_digits
  Reporting-integer_digits sign x n [] end_span = Reporting-pure _
  Reporting-integer_digits sign x n ((Digit10.digit d, span) ∷ rest) end_span =
      Reporting-elim (ltb d 10)
        (Reporting-integer_digits sign (add_float_digit location floats sign decimal x d) (suc n)
          rest end_span)
        (Reporting-report _)
  Reporting-integer_digits sign x zero ((Digit10.separator, span) ∷ rest) end_span =
      Reporting-report _
  Reporting-integer_digits sign x (suc n) ((Digit10.separator, span) ∷ rest) end_span =
      Reporting-integer_digits sign x (suc n) rest end_span
  Reporting-integer_digits sign x n ((Digit10.start_fractional, span) ∷ rest) end_span =
      Reporting-pure _
  Reporting-integer_digits sign x n ((Digit10.start_exponent, span) ∷ rest) end_span =
      Reporting-pure _
  Reporting-integer_digits sign x n ((Digit10.error, span) ∷ rest) end_span = Reporting-report _

  Reporting-fractional_digits :
      (sign : Sign) (x : floats.Float) (n : ℕ) (tokens : List (Digit10 × Range)) (end_span : Range)
      → Reporting (fractional_digits location floats sign x n tokens end_span)
  unfolding fractional_digits
  Reporting-fractional_digits sign x n [] end_span = Reporting-pure _
  Reporting-fractional_digits sign x n ((Digit10.digit d, span) ∷ rest) end_span =
      Reporting-elim (ltb d 10)
        (Reporting-fractional_digits sign (add_float_digit location floats sign decimal x d) (suc n)
          rest end_span)
        (Reporting-report _)
  Reporting-fractional_digits sign x zero ((Digit10.separator, span) ∷ rest) end_span =
      Reporting-report _
  Reporting-fractional_digits sign x (suc n) ((Digit10.separator, span) ∷ rest) end_span =
      Reporting-fractional_digits sign x (suc n) rest end_span
  Reporting-fractional_digits sign x n ((Digit10.start_exponent, span) ∷ rest) end_span =
      Reporting-pure _
  Reporting-fractional_digits sign x n ((Digit10.start_fractional, span) ∷ rest) end_span =
      Reporting-report _
  Reporting-fractional_digits sign x n ((Digit10.error, span) ∷ rest) end_span = Reporting-report _

  Reporting-unless_none :
      (n : ℕ) (stop : Stop) {m : Parses floats.Float}
      → Reporting m
      → Reporting (unless_none location floats n stop m)
  Reporting-unless_none zero stop h = Reporting-report _
  Reporting-unless_none (suc n) stop h = h

  Reporting-unless_exponent :
      (x : floats.Float) (stop : Stop) → Reporting (unless_exponent location floats x stop)
  Reporting-unless_exponent x (at_end _) = Reporting-pure _
  Reporting-unless_exponent x (at_fractional _ _ _) = Reporting-pure _
  Reporting-unless_exponent x (at_exponent _) = Reporting-report _

  Reporting-after_integer :
      (sign : Sign) (x : floats.Float) (stop : Stop)
      → Reporting (after_integer location floats sign x stop)
  Reporting-after_integer sign x (at_end span) = Reporting-unless_exponent x (at_end span)
  Reporting-after_integer sign x (at_exponent span) = Reporting-unless_exponent x (at_exponent span)
  Reporting-after_integer sign x (at_fractional span rest end_span) =
      Reporting-fractional_digits sign _ 0 rest end_span ⟫ λ (frac, n, stop).
      Reporting-unless_none n stop (Reporting-unless_exponent _ stop)

  module _ (lexers : Lexers) where
    Reporting-float_from :
        (r : Start location lexers) → Reporting (float_from location floats lexers r)
    Reporting-float_from (sign, decimal, start, rest) =
        Reporting-integer_digits sign _ _ (lexers.morph10 rest).tokens
          (lexers.morph10 rest).end_span
        ⟫ λ (x, n, stop). Reporting-unless_none n stop (Reporting-after_integer sign x stop)
    Reporting-float_from (sign, binary, start, rest) = Reporting-report _
    Reporting-float_from (sign, octal, start, rest) = Reporting-report _
    Reporting-float_from (sign, hexadecimal, start, rest) = Reporting-report _

    -- A literal that is a float leaves the messages as they were, and one that is refused adds one
    -- message at their end, whatever the tokens of the source and the arithmetic of the floats are.
    pub Reports-number_to_float :
        (lexer : lexers.Lexer) (messages : List LiteralParseMessage)
        → Reports messages (number_to_float location floats lexers lexer messages)
    unfolding number_to_float
    Reports-number_to_float lexer messages =
        (Reporting-start location lexers lexer ⟫ λ r. Reporting-float_from r).apply messages
