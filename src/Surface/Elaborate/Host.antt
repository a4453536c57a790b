-- ===== src/Surface/Elaborate/Host.antt =====
-- fathom/src/pass/surface_to_core.rs: what the elaborator calls of libraries, and how it reports.
-- Terms have no locations here, so literals are parsed at a generated location.
use ddl.Prelude.{ℕ, String, List, [], ◌∷◌, ◌++◌, Option}
use ddl.Outcome.{ok}
use ddl.Core.Term as Core
use ddl.Core.Semantics.Value.{Value}
use ddl.Runtime.Number.{FloatBits}
use ddl.Literal.Token.{LiteralParseMessage, Lexers}
use ddl.Literal.Parse.{Parses}
use ddl.Literal.Float.{Floats}
use ddl.Surface.Term.{Term}
use ddl.Surface.Distill.{Display}
use ddl.Surface.Elaborate.Message.{SurfaceToCoreMessage, Message, surface_to_core, literal_parse}
use ddl.Surface.Elaborate.Context.{
  Context, Elaborates, ◌>>=◌, ◌>>◌, pure, push_message, read_back_to_surface,
}

-- `to_string`, the lexers of literals, and the two types of floats with their bits.
pub record Host : Type 1 where
  pub display : Display
  pub lexers : Lexers
  pub lexer : String → lexers.Lexer
  pub f32_floats : Floats
  pub f32_bits : f32_floats.Float → FloatBits
  pub f64_floats : Floats
  pub f64_bits : f64_floats.Float → FloatBits

-- A core term with its type.
abbrev pub Typed : Type 0
Typed = Core.Term × Value

abbrev pub parse_messages : List LiteralParseMessage → List Message
parse_messages [] = []
parse_messages (message ∷ rest) = literal_parse message ∷ parse_messages rest

abbrev keep_parsed :
    {A : Type 0} → Context → Option A × List LiteralParseMessage → Option A × Context
keep_parsed c (value, messages) =
    (value, record c { messages = c.messages ++ parse_messages messages })

-- The parser of a literal has the messages of the context, and only adds to them.
unfoldable pub parses : {A : Type 0} → Parses A → Elaborates (Option A)
parses m c = ok (keep_parsed c (m []))

-- A message, and an error in place of a term.
abbrev pub reject : SurfaceToCoreMessage → Elaborates Core.Term
reject message = push_message (surface_to_core message) >> pure Core.Term.error

-- The same in place of a term with a type.
abbrev pub fail : SurfaceToCoreMessage → Elaborates Typed
fail message = push_message (surface_to_core message) >> pure (Core.Term.error, Value.error)

module _ (host : Host) (fuel : ℕ) where
  -- The same with a message about a value.
  abbrev pub reject_value : Value → (Term → SurfaceToCoreMessage) → Elaborates Core.Term
  reject_value value message = do
    distilled ← read_back_to_surface host.display fuel value
    reject (message distilled)

  abbrev pub fail_value : Value → (Term → SurfaceToCoreMessage) → Elaborates Typed
  fail_value value message = do
    distilled ← read_back_to_surface host.display fuel value
    fail (message distilled)
