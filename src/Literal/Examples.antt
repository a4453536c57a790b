-- ===== src/Literal/Examples.antt =====
-- fathom/src/literal.rs: literals that are decoded.
use ddl.Prelude.{ℕ, ◌+◌, ◌-◌, ◌*◌, ◌/◌, ◌^◌, List, [], ◌∷◌, Option, none, some, ◌≡◌, ◌↔◌, refl}
use ddl.Prelude.Int.{negsuc}
use ddl.Location.{Range, generated}
use ddl.Literal.Token.{
  negative, hexadecimal, NumericLiteral, Digit36, Digit10, LiteralParseMessage, Lexers,
}
use ddl.Literal.Parse.{
  parse_digits, add_digit, expect_token, expect_numeric_literal_start, number_to_big_int,
}
use ddl.Literal.Float.{Floats, number_to_float}
use ddl.Literal.Value.{AreDigits, positional, signed, number_to_big_int-value}
use ddl.Literal.Reports.{Reports, Reports-number_to_big_int}
use ddl.Literal.Reports.OfFloat.{Reports-number_to_float}

abbrev at : ℕ → Range
at n = record { start = n; end = n + 1 }

-- The tokens of a source, by its lexers.
abbrev next_token : List NumericLiteral → Option NumericLiteral × List NumericLiteral
next_token [] = (none, [])
next_token (token ∷ rest) = (some token, rest)

abbrev lexers_of : List (Digit36 × Range) → List (Digit10 × Range) → Lexers
lexers_of digits36 digits10 = record {
  Lexer = List NumericLiteral;
  next = next_token;
  span = λ _. at 0;
  morph36 = λ _. record { tokens = digits36; end_span = at 9 };
  morph10 = λ _. record { tokens = digits10; end_span = at 9 };
}

abbrev no_messages : List LiteralParseMessage
no_messages = []

-- -0x1_f
abbrev minus_31 : List (Digit36 × Range)
minus_31 = (Digit36.digit 1, at 3) ∷ (Digit36.separator, at 4) ∷ (Digit36.digit 15, at 5) ∷ []

abbrev minus_hexadecimal : List NumericLiteral
minus_hexadecimal = NumericLiteral.sign negative ∷ NumericLiteral.base hexadecimal ∷ []

minus_31_parsed :
    number_to_big_int generated (lexers_of minus_31 []) minus_hexadecimal []
    ≡ (some (negsuc 30), [])
unfolding number_to_big_int expect_numeric_literal_start expect_token parse_digits add_digit
minus_31_parsed = refl

minus_31_started :
    expect_numeric_literal_start generated (lexers_of minus_31 []) minus_hexadecimal []
    ≡ (some (negative, hexadecimal, none, []), [])
unfolding expect_numeric_literal_start expect_token
minus_31_started = refl

number_to_big_int-value_example :
    (number_to_big_int generated (lexers_of minus_31 []) minus_hexadecimal []
      ≡ (some (negsuc 30), []))
    ↔ (AreDigits hexadecimal 0 minus_31
        × (negsuc 30 ≡ signed negative (positional 16 (1 ∷ 15 ∷ [])))
        × (no_messages ≡ no_messages))
number_to_big_int-value_example =
    number_to_big_int-value generated (lexers_of minus_31 []) minus_hexadecimal [] negative
      hexadecimal none no_messages (negsuc 30) no_messages minus_31_started

-- 0x_1
Reports-number_to_big_int_example : Reports [] (
    number_to_big_int generated
      (lexers_of ((Digit36.separator, at 2) ∷ (Digit36.digit 1, at 3) ∷ []) [])
      (NumericLiteral.base hexadecimal ∷ [])
      [])
Reports-number_to_big_int_example =
    Reports-number_to_big_int generated
      (lexers_of ((Digit36.separator, at 2) ∷ (Digit36.digit 1, at 3) ∷ []) [])
      (NumericLiteral.base hexadecimal ∷ []) []

-- Numbers that stand for floats.
abbrev floats_ℕ : Floats
floats_ℕ = record {
  Float = ℕ;
  zero_float = 0;
  add = λ a b. a + b;
  sub = λ a b. a - b;
  mul = λ a b. a * b;
  div = λ a b. a / b;
  powi = λ a n. a ^ n;
  from_u8 = λ n. n;
}

-- 4.20
abbrev four_20 : List (Digit10 × Range)
four_20 = (Digit10.start_fractional, at 1) ∷ (Digit10.digit 2, at 2) ∷ (Digit10.digit 0, at 3) ∷ []

Reports-number_to_float_example :
    Reports []
      (number_to_float generated floats_ℕ (lexers_of [] four_20) (NumericLiteral.digit 4 ∷ []) [])
Reports-number_to_float_example =
    Reports-number_to_float generated floats_ℕ (lexers_of [] four_20) (NumericLiteral.digit 4 ∷ [])
      []
