-- ===== src/Literal/Reports.antt =====
-- fathom/src/literal.rs: a literal that is refused leaves one message.
pub mod OfFloat
use mathlib.Core.Path.{subst}
use ddl.Prelude.{
  ℕ, zero, suc, List, [], ◌∷◌, ◌++◌, Bool, true, false, Option, none, some, ◌≡◌, refl, sym, ap, ◌∙◌,
  ltb, Bool-cases, ◌⊎◌, inl, inr,
}
use ddl.Prelude.Int.{ℤ}
use ddl.Location.{Location, Range}
use ddl.Literal.Token.{
  Sign, Base, to_u8, NumericLiteral, Digit36, Digit10, LiteralParseMessage, Tokens, Lexers,
}
use ddl.Literal.Parse.{
  Parses, ◌>>=◌, pure, report, token_location, add_digit, first_or_later, parse_digits, from_start,
  expect_found, expect_token, after_sign, from_first, Start, expect_numeric_literal_start,
  integer_from, number_to_big_int,
}
use ddl.Literal.Float.{
  Floats, Stop, at_end, at_fractional, at_exponent, add_float_digit, digit_or, Digits,
  integer_digits, fractional_digits, unless_none, unless_exponent, add_fraction, after_integer,
  from_digits, float_from, number_to_float,
}

-- A value leaves the messages as they were, and no value leaves one more.
abbrev pub Reports :
    {A : Type 0} → List LiteralParseMessage → Option A × List LiteralParseMessage → Type 0
Reports messages (some a, messages') = messages' ≡ messages
Reports messages (none, messages') =
    (message : LiteralParseMessage) × (messages' ≡ messages ++ (message ∷ []))

pub record Reporting {A : Type 0} (m : Parses A) : Type 0 where
  pub apply : (messages : List LiteralParseMessage) → Reports messages (m messages)

pub Reporting-pure : {A : Type 0} (a : A) → Reporting (pure a)
Reporting-pure a = record { apply = λ messages. refl }

pub Reporting-report :
    {A : Type 0} (message : LiteralParseMessage) → Reporting (report {A = A} message)
unfolding report
Reporting-report message = record { apply = λ messages. (message, refl) }

Reports-after :
    {A B : Type 0} (messages : List LiteralParseMessage) (r : Option A × List LiteralParseMessage)
    (f : A → Parses B)
    → Reports messages r
    → ((a : A) → Reporting (f a))
    → Reports messages (((λ _. r) >>= f) messages)
Reports-after messages (none, messages') f h k = h
Reports-after messages (some a, messages') f h k =
    subst (λ m. Reports m (f a messages')) h ((k a).apply messages')

infixl 1 ◌⟫◌
pub ◌⟫◌ :
    {A B : Type 0} {m : Parses A} {f : A → Parses B}
    → Reporting m
    → ((a : A) → Reporting (f a))
    → Reporting (m >>= f)
h ⟫ k = record { apply = λ messages. Reports-after messages _ _ (h.apply messages) k }

pub Reporting-elim :
    {A : Type 0} (b : Bool) {m n : Parses A}
    → Reporting m
    → Reporting n
    → Reporting (elim b [ true ↦ m | false ↦ n ])
Reporting-elim true p q = p
Reporting-elim false p q = q

module _ (location : Location) where
  Reporting-parse_digits :
      (sign : Sign) (base : Base) (z : ℤ) (n : ℕ) (tokens : List (Digit36 × Range))
      (end_span : Range)
      → Reporting (parse_digits location sign base z n tokens end_span)
  unfolding parse_digits
  Reporting-parse_digits sign base z zero [] end_span = Reporting-report _
  Reporting-parse_digits sign base z (suc n) [] end_span = Reporting-pure z
  Reporting-parse_digits sign base z n ((Digit36.digit d, span) ∷ rest) end_span =
      Reporting-elim (ltb d (to_u8 base))
        (Reporting-parse_digits sign base (add_digit sign base z d) (suc n) rest end_span)
        (Reporting-report _)
  Reporting-parse_digits sign base z zero ((Digit36.separator, span) ∷ rest) end_span =
      Reporting-report _
  Reporting-parse_digits sign base z (suc n) ((Digit36.separator, span) ∷ rest) end_span =
      Reporting-parse_digits sign base z (suc n) rest end_span
  Reporting-parse_digits sign base z n ((Digit36.error, span) ∷ rest) end_span = Reporting-report _

  module _ (lexers : Lexers) where
    Reporting-found :
        (r : Option NumericLiteral × lexers.Lexer) → Reporting (expect_found location lexers r)
    Reporting-found (some token, lexer) = Reporting-pure (token, lexer)
    Reporting-found (none, lexer) = Reporting-report _

    Reporting-expect_token : (lexer : lexers.Lexer) → Reporting (expect_token location lexers lexer)
    unfolding expect_token
    Reporting-expect_token lexer = Reporting-found (lexers.next lexer)

    Reporting-after_sign :
        (sign : Sign) (r : NumericLiteral × lexers.Lexer)
        → Reporting (after_sign location lexers sign r)
    Reporting-after_sign sign (NumericLiteral.base base, lexer) = Reporting-pure _
    Reporting-after_sign sign (NumericLiteral.digit digit, lexer) = Reporting-pure _
    Reporting-after_sign sign (NumericLiteral.sign _, lexer) = Reporting-report _
    Reporting-after_sign sign (NumericLiteral.error, lexer) = Reporting-report _

    Reporting-from_first :
        (r : NumericLiteral × lexers.Lexer) → Reporting (from_first location lexers r)
    Reporting-from_first (NumericLiteral.sign sign, lexer) =
        Reporting-expect_token lexer ⟫ λ r. Reporting-after_sign sign r
    Reporting-from_first (NumericLiteral.base base, lexer) = Reporting-pure _
    Reporting-from_first (NumericLiteral.digit digit, lexer) = Reporting-pure _
    Reporting-from_first (NumericLiteral.error, lexer) = Reporting-report _

    pub Reporting-start :
        (lexer : lexers.Lexer) → Reporting (expect_numeric_literal_start location lexers lexer)
    unfolding expect_numeric_literal_start
    Reporting-start lexer = Reporting-expect_token lexer ⟫ λ r. Reporting-from_first r

    -- A literal that is an integer leaves the messages as they were, and one that is refused adds
    -- one message at their end, whatever the tokens of the source are.
    pub Reports-number_to_big_int :
        (lexer : lexers.Lexer) (messages : List LiteralParseMessage)
        → Reports messages (number_to_big_int location lexers lexer messages)
    unfolding number_to_big_int
    Reports-number_to_big_int lexer messages =
        (Reporting-start lexer ⟫ λ (sign, base, start, rest).
        Reporting-parse_digits sign base (from_start location sign base start).0
          (from_start location sign base start).1 (lexers.morph36 rest).tokens
          (lexers.morph36 rest).end_span).apply
          messages
