-- ===== src/Literal/Value.antt =====
-- fathom/src/literal.rs: the value of the integers that are parsed.
use native.Mathlib.Nat.{pow-suc, pow-zero}
use ddl.Prelude.{
  ℕ, zero, suc, ◌+◌, ◌*◌, ◌^◌, ◌<◌, List, [], ◌∷◌, ◌++◌, true, Option, none, some, ◌≡◌, ◌↔◌, refl,
  sym, ap, ◌∙◌, length, ltb, arith, Bool-cases, inl, inr,
}
use ddl.Prelude.Int.{ℤ, pos, sub_ℕ}
use ddl.Location.{Location, Range}
use ddl.Literal.Token.{Sign, positive, negative, Base, to_u8, Digit36, LiteralParseMessage, Lexers}
use ddl.Literal.Parse.{
  report, add_digit, parse_digits, from_start, expect_numeric_literal_start, number_to_big_int,
  integer_from,
}

-- The number that digits stand for, the highest power first.
abbrev pub positional : ℕ → List ℕ → ℕ
positional b [] = 0
positional b (d ∷ ds) = d * b ^ length ds + positional b ds

abbrev pub signed : Sign → ℕ → ℤ
signed positive n = pos n
signed negative n = sub_ℕ 0 n

abbrev pub digits_of : List (Digit36 × Range) → List ℕ
digits_of [] = []
digits_of ((Digit36.digit d, _) ∷ rest) = d ∷ digits_of rest
digits_of (_ ∷ rest) = digits_of rest

-- Tokens after `n` digits: all are digits of the base or separators, and a digit stands first.
abbrev pub AreDigits : Base → ℕ → List (Digit36 × Range) → Type 0
AreDigits base n [] = 0 < n
AreDigits base n ((Digit36.digit d, _) ∷ rest) = (d < to_u8 base) × AreDigits base (suc n) rest
AreDigits base zero ((Digit36.separator, _) ∷ rest) = ⊥
AreDigits base (suc n) ((Digit36.separator, _) ∷ rest) = AreDigits base (suc n) rest
AreDigits base n ((Digit36.error, _) ∷ rest) = ⊥

add_digit-signed :
    (sign : Sign) (base : Base) (m d : ℕ)
    → add_digit sign base (signed sign m) d ≡ signed sign (m * to_u8 base + d)
unfolding add_digit
add_digit-signed positive base m d = ground arith
add_digit-signed negative base m d = ground arith

horner : (m b d l r : ℕ) → (m * b + d) * b ^ l + r ≡ m * b ^ suc l + (d * b ^ l + r)
horner m b d l r = grind (arith, pow-suc b l)

module _ (location : Location) (sign : Sign) (base : Base) (end_span : Range) where
  parse_digits-value :
      (m n : ℕ) (tokens : List (Digit36 × Range)) (messages : List LiteralParseMessage)
      → AreDigits base n tokens
      → parse_digits location sign base (signed sign m) n tokens end_span messages ≡ (
        some (
            signed sign (
              m * to_u8 base ^ length (digits_of tokens)
              + positional (to_u8 base) (digits_of tokens))),
        messages,
      )
  unfolding parse_digits
  parse_digits-value m zero [] messages h = absurd (omega arith)
  parse_digits-value m (suc n) [] messages h =
      ap (λ k. (some (signed sign k), messages))
        (omega (arith, pow-zero (to_u8 base), ap (λ (t : ℕ). m * t) (pow-zero (to_u8 base))))
  parse_digits-value m n ((Digit36.digit d, span) ∷ rest) messages h =
      let below : ltb d (to_u8 base) ≡ true = ground (arith, h.0) in
      rw (below, parse_digits)
        (rw (add_digit-signed sign base m d) (
          parse_digits-value (m * to_u8 base + d) (suc n) rest messages h.1
          ∙ ap (λ k. (some (signed sign k), messages))
              (horner m (to_u8 base) d (length (digits_of rest))
                (positional (to_u8 base) (digits_of rest)))))
  parse_digits-value m zero ((Digit36.separator, span) ∷ rest) messages h = absurd h
  parse_digits-value m (suc n) ((Digit36.separator, span) ∷ rest) messages h =
      parse_digits-value m (suc n) rest messages h
  parse_digits-value m n ((Digit36.error, span) ∷ rest) messages h = absurd h

  parse_digits-AreDigits :
      (z : ℤ) (n : ℕ) (tokens : List (Digit36 × Range))
      (messages messages' : List LiteralParseMessage) (v : ℤ)
      → parse_digits location sign base z n tokens end_span messages ≡ (some v, messages')
      → AreDigits base n tokens
  unfolding parse_digits report
  parse_digits-AreDigits z zero [] messages messages' v e = absurd cc
  parse_digits-AreDigits z (suc n) [] messages messages' v e = omega arith
  parse_digits-AreDigits z n ((Digit36.digit d, span) ∷ rest) messages messages' v e =
      elim (Bool-cases (ltb d (to_u8 base))) [
        | inl below ↦ (
          ground arith,
          parse_digits-AreDigits (add_digit sign base z d) (suc n) rest messages messages' v
              (sym (rw (below, parse_digits)) ∙ e),
        )
        | inr high ↦ absurd (let q = rw (high, parse_digits) at e in cc)
      ]
  parse_digits-AreDigits z zero ((Digit36.separator, span) ∷ rest) messages messages' v e = cc
  parse_digits-AreDigits z (suc n) ((Digit36.separator, span) ∷ rest) messages messages' v e =
      parse_digits-AreDigits z (suc n) rest messages messages' v e
  parse_digits-AreDigits z n ((Digit36.error, span) ∷ rest) messages messages' v e = cc

abbrev pub started : Option ℕ → List ℕ
started none = []
started (some digit) = digit ∷ []

abbrev pub count : Option ℕ → ℕ
count none = 0
count (some digit) = 1

signed-zero : (sign : Sign) → pos 0 ≡ signed sign 0
signed-zero positive = refl
signed-zero negative = refl

module _ (location : Location) (sign : Sign) (base : Base) (end_span : Range)
    (ts : List (Digit36 × Range)) (messages : List LiteralParseMessage) where
  from_start-value :
      (start : Option ℕ)
      → AreDigits base (count start) ts
      → parse_digits location sign base
          (from_start location sign base start).0
          (from_start location sign base start).1
          ts
          end_span
          messages
        ≡ (some (signed sign (positional (to_u8 base) (started start ++ digits_of ts))), messages)
  from_start-value none h = rw (signed-zero sign) (
      parse_digits-value location sign base end_span 0 0 ts messages h
      ∙ ap (λ k. (some (signed sign k), messages)) (omega arith))
  from_start-value (some d) h = rw (signed-zero sign) (
      rw (add_digit-signed sign base 0 d) (
        parse_digits-value location sign base end_span (0 * to_u8 base + d) 1 ts messages h
        ∙ ap
            (λ (k : ℕ). (
              some (
                  signed sign (
                    k * to_u8 base ^ length (digits_of ts)
                    + positional (to_u8 base) (digits_of ts))),
              messages,
            ))
            (omega arith)))

  from_start-AreDigits :
      (start : Option ℕ) (v : ℤ) (messages' : List LiteralParseMessage)
      → parse_digits location sign base
          (from_start location sign base start).0
          (from_start location sign base start).1
          ts
          end_span
          messages
        ≡ (some v, messages')
      → AreDigits base (count start) ts
  from_start-AreDigits none v messages' e =
      parse_digits-AreDigits location sign base end_span (pos 0) 0 ts messages messages' v e
  from_start-AreDigits (some d) v messages' e =
      parse_digits-AreDigits location sign base end_span (add_digit sign base (pos 0) d) 1 ts
        messages messages' v e

module _ (location : Location) (lexers : Lexers) (lexer rest : lexers.Lexer) (sign : Sign)
    (base : Base) (start : Option ℕ) (messages : List LiteralParseMessage) where
  abbrev pub digit_tokens : List (Digit36 × Range)
  digit_tokens = (lexers.morph36 rest).tokens

  abbrev pub literal_value : ℤ
  literal_value = signed sign (positional (to_u8 base) (started start ++ digits_of digit_tokens))

  -- Where the start of a literal, a sign, a base and maybe a first digit, is found without
  -- messages: the literal is an integer exactly if the tokens after its start are digits of the
  -- base and separators, with a digit before the first separator and at least one digit in all.
  -- Its value is then what its digits stand for in the base, with the sign, and the messages
  -- are as they were.
  pub number_to_big_int-value :
      (v : ℤ) (messages' : List LiteralParseMessage)
      → expect_numeric_literal_start location lexers lexer messages
        ≡ (some (sign, base, start, rest), messages)
      → (number_to_big_int location lexers lexer messages ≡ (some v, messages'))
        ↔ (AreDigits base (count start) digit_tokens × (v ≡ literal_value) × (messages' ≡ messages))
  unfolding number_to_big_int
  number_to_big_int-value v messages' e =
      let digits = lexers.morph36 rest in
      let value =
        from_start-value location sign base digits.end_span digits.tokens messages start in
      let computed : number_to_big_int location lexers lexer messages
          ≡ integer_from location lexers (sign, base, start, rest) messages =
        rw e in
      (
        λ q.
            let h =
              from_start-AreDigits location sign base digits.end_span digits.tokens messages start v
                messages' (sym computed ∙ q) in
            let same = sym (value h) ∙ sym computed ∙ q in (h, cc, cc),
        λ h. computed ∙ value h.0 ∙ rw (h.1, h.2),
      )
