-- ===== src/Literal/Parse.antt =====
-- fathom/src/literal.rs: the start of literals, and big integers. The counts of digits are `i32`
-- values, and spans are `usize` values: no source is long enough for them to overflow.
use ddl.Prelude.{ℕ, zero, suc, ◌+◌, ◌*◌, List, [], ◌∷◌, ◌++◌, true, false, Option, none, some, ltb}
use ddl.Prelude.Int.{ℤ, pos, pos_part, neg_part, sub_ℕ}
use ddl.Location.{Location, Range, generated, file_range}
use ddl.Literal.Token.{
  Sign, positive, negative, Base, decimal, to_u8, NumericLiteral, Digit36, LiteralParseMessage,
  expected_radix_or_decimal_digit, expected_start_of_numeric_literal, expected_digit,
  expected_digit_or_separator, unexpected_end_of_literal, Lexers,
}

-- A method of the parser state, which has the messages. `none` is a fatal error.
abbrev pub Parses : Type 0 → Type 0
Parses A = List LiteralParseMessage → Option A × List LiteralParseMessage

abbrev after :
    {A B : Type 0}
    → Option A × List LiteralParseMessage
    → (A → Parses B)
    → Option B × List LiteralParseMessage
after (none, messages) f = (none, messages)
after (some a, messages) f = f a messages

infixl 5 ◌>>=◌
abbrev pub ◌>>=◌ : {A B : Type 0} → Parses A → (A → Parses B) → Parses B
m >>= f = λ messages. after (m messages) f

abbrev pub pure : {A : Type 0} → A → Parses A
pure a = λ messages. (some a, messages)

unfoldable pub report : {A : Type 0} → LiteralParseMessage → Parses A
report message = λ messages. (none, messages ++ (message ∷ []))

-- The location of the span in the file of the literal.
unfoldable pub token_location : Location → Range → Location
token_location generated span = generated
token_location (file_range file_id range) span =
    file_range file_id (record { start = range.start + span.start; end = range.start + span.end })

-- `*integer *= base; *integer += digit`, or `-=`.
unfoldable pub add_digit : Sign → Base → ℤ → ℕ → ℤ
add_digit positive base integer digit =
    sub_ℕ (pos_part integer * to_u8 base + digit) (neg_part integer * to_u8 base)
add_digit negative base integer digit =
    sub_ℕ (pos_part integer * to_u8 base) (neg_part integer * to_u8 base + digit)

module _ (location : Location) where
  abbrev pub first_or_later : Base → Range → ℕ → LiteralParseMessage
  first_or_later base span zero = expected_digit (token_location location span) base
  first_or_later base span (suc _) = expected_digit_or_separator (token_location location span) base

  -- The loop over the digits, and the test after it.
  unfoldable pub parse_digits : Sign → Base → ℤ → ℕ → List (Digit36 × Range) → Range → Parses ℤ
  unfolding token_location add_digit report
  parse_digits sign base integer zero [] end_span =
      report (unexpected_end_of_literal (token_location location end_span))
  parse_digits sign base integer (suc _) [] end_span = pure integer
  parse_digits sign base integer num_digits ((Digit36.digit digit, span) ∷ rest) end_span =
      elim (ltb digit (to_u8 base)) [
        | true ↦
            parse_digits sign base (add_digit sign base integer digit) (suc num_digits) rest
              end_span
        | false ↦ report (first_or_later base span num_digits)
      ]
  parse_digits sign base integer zero ((Digit36.separator, span) ∷ rest) end_span =
      report (expected_digit (token_location location span) base)
  parse_digits sign base integer (suc n) ((Digit36.separator, span) ∷ rest) end_span =
      parse_digits sign base integer (suc n) rest end_span
  parse_digits sign base integer num_digits ((Digit36.error, span) ∷ rest) end_span =
      report (first_or_later base span num_digits)

  -- The integer and the number of digits before the loop.
  abbrev pub from_start : Sign → Base → Option ℕ → ℤ × ℕ
  from_start sign base none = (pos 0, 0)
  from_start sign base (some digit) = (add_digit sign base (pos 0) digit, 1)

  module _ (lexers : Lexers) where
    abbrev pub expect_found :
        Option NumericLiteral × lexers.Lexer → Parses (NumericLiteral × lexers.Lexer)
    expect_found (some token, lexer) = pure (token, lexer)
    expect_found (none, lexer) =
        report (unexpected_end_of_literal (token_location location (lexers.span lexer)))

    unfoldable pub expect_token : lexers.Lexer → Parses (NumericLiteral × lexers.Lexer)
    unfolding report token_location
    expect_token lexer = expect_found (lexers.next lexer)

    abbrev pub Start : Type 0
    Start = Sign × Base × Option ℕ × lexers.Lexer

    abbrev pub after_sign : Sign → NumericLiteral × lexers.Lexer → Parses Start
    after_sign sign (NumericLiteral.base base, lexer) = pure (sign, base, none, lexer)
    after_sign sign (NumericLiteral.digit digit, lexer) = pure (sign, decimal, some digit, lexer)
    after_sign sign (_, lexer) =
        report (expected_radix_or_decimal_digit (token_location location (lexers.span lexer)))

    abbrev pub from_first : NumericLiteral × lexers.Lexer → Parses Start
    from_first (NumericLiteral.sign sign, lexer) = expect_token lexer >>= after_sign sign
    from_first (NumericLiteral.base base, lexer) = pure (positive, base, none, lexer)
    from_first (NumericLiteral.digit digit, lexer) = pure (positive, decimal, some digit, lexer)
    from_first (NumericLiteral.error, lexer) =
        report (expected_start_of_numeric_literal (token_location location (lexers.span lexer)))

    unfoldable pub expect_numeric_literal_start : lexers.Lexer → Parses Start
    unfolding expect_token report token_location
    expect_numeric_literal_start lexer = expect_token lexer >>= from_first

    abbrev pub integer_from : Start → Parses ℤ
    integer_from (sign, base, start_digit, lexer) =
        let (integer, num_digits) = from_start sign base start_digit in
        let digits = lexers.morph36 lexer in
        parse_digits sign base integer num_digits digits.tokens digits.end_span

    unfoldable pub number_to_big_int : lexers.Lexer → Parses ℤ
    unfolding expect_numeric_literal_start parse_digits add_digit
    number_to_big_int lexer = expect_numeric_literal_start lexer >>= integer_from
