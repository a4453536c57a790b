-- ===== src/Literal/Token.antt =====
-- fathom/src/literal.rs: the tokens of literals, and the messages about them of
-- fathom/src/reporting.rs. The lexers are derived by a library from the attributes of the tokens.
use ddl.Prelude.{ℕ, Bool, ◌-◌, ◌+◌, List, [], ◌∷◌, Option, none, some, leb, ◌&&◌, if◌then◌else◌}
use ddl.Location.{Location, Range}

pub data Sign : Type 0 where
  positive negative : Sign

pub data Base : Type 0 where
  binary octal decimal hexadecimal : Base

abbrev pub to_u8 : Base → ℕ
to_u8 binary = 2
to_u8 octal = 8
to_u8 decimal = 10
to_u8 hexadecimal = 16

abbrev within : ℕ → ℕ → ℕ → Bool
within first last byte = leb first byte && leb byte last

abbrev digit_of : ℕ → Option ℕ
digit_of byte =
    if within 48 57 byte
    then some (byte - 48)
    else if within 97 122 byte
    then some (byte - 97 + 10)
    else if within 65 90 byte
    then some (byte - 65 + 10)
    else none

-- The digit of the slice of a token, by its first byte.
unfoldable pub ascii_digit : List ℕ → Option ℕ
ascii_digit [] = none
ascii_digit (byte ∷ _) = digit_of byte

pub data NumericLiteral : Type 0 where
  sign : Sign → NumericLiteral
  base : Base → NumericLiteral
  digit : ℕ → NumericLiteral
  error : NumericLiteral

pub data Digit36 : Type 0 where
  digit : ℕ → Digit36
  separator : Digit36
  error : Digit36

pub data Digit10 : Type 0 where
  digit : ℕ → Digit10
  separator : Digit10
  start_fractional : Digit10
  start_exponent : Digit10
  error : Digit10

pub data LiteralParseMessage : Type 0 where
  expected_radix_or_decimal_digit : Location → LiteralParseMessage
  expected_start_of_numeric_literal : Location → LiteralParseMessage
  expected_digit : Location → Base → LiteralParseMessage
  expected_digit_or_separator : Location → Base → LiteralParseMessage
  expected_digit_separator_or_exp : Location → Base → LiteralParseMessage
  expected_digit_separator_frac_or_exp : Location → Base → LiteralParseMessage
  float_literal_exponent_not_supported : Location → LiteralParseMessage
  unsupported_float_literal_base : Location → Base → LiteralParseMessage
  unexpected_end_of_literal : Location → LiteralParseMessage

-- The tokens that an iterator still gives, each with its span, and the span at their end.
pub record Tokens (Token : Type 0) : Type 0 where
  pub tokens : List (Token × Range)
  pub end_span : Range

-- The lexers: what `next` gives for the start of a literal, the span of the last token, and what is
-- left for the lexers of digits that it morphs into. A source is finite, and so are its tokens.
pub record Lexers : Type 1 where
  pub Lexer : Type 0
  pub next : Lexer → Option NumericLiteral × Lexer
  pub span : Lexer → Range
  pub morph36 : Lexer → Tokens Digit36
  pub morph10 : Lexer → Tokens Digit10
