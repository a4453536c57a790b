-- ===== src/Lib.antt =====
-- Fathom, a language for binary data formats: its runtime library, the core language that formats are
-- elaborated to, and the reader that interprets such formats on binary data.
--
-- The parts of the program, and the files that model them:
--
-- * fathom-runtime/src (Runtime). read.rs: a `ReadScope` is a window into a buffer, with the position
--   of its first byte, and a `FormatReader` moves through one (Runtime/Read). write.rs: a
--   `FormatWriter` is a buffer that grows (Runtime/Write). lib.rs: the marker types of the formats of
--   numbers, with `read_unchecked`, `read` and `write` for each (Runtime/UInt for unsigned integers,
--   Runtime/Number for signed integers and floats, which go through the unsigned ones). Runtime/UInt
--   has child modules for the meaning of bytes in each order (Bytes), for sums that stand for bitwise
--   or (Words), and for what is proved of reading, of writing and of both. Runtime/Scope is about
--   scopes within scopes.
-- * fathom/src/ieee754.rs (Ieee754): the equality of floats that types use.
-- * fathom/src/lang/core.rs (Core/Term, Core/Globals, Core/Locals): the syntax of the core language,
--   its global names, and local environments with indices and levels.
-- * fathom/src/lang/core/semantics.rs (Core/Semantics): values and their spines (Value), the
--   eliminators (Elimination), `eval` (Eval), the fields of struct types (Fields), `read_back` and
--   `normalize` (ReadBack), and `is_equal` (Equal).
-- * fathom/src/lang/core/binary/read.rs (Core/Binary): the context and the queue of pending links
--   (Session), `read_format` and `read_struct_format` (Read), `Context::new` and `read_item`
--   (Item), what reading does to the reader and the queue (Extends), formats of a fixed size
--   (Layout), and the fields of structs that are read (Fields).
-- * fathom/src/lang/core/typing.rs (Core/Typing): the messages of fathom/src/reporting.rs (Message),
--   the context (Context), the bodies of the functions that check and synthesize types (Terms), the
--   functions and `is_module` (Judgements), what they do to the context (Quiet), what the check says
--   of a type that is not equal to itself (Agree), the parameters of structs (Params), and typing
--   rules for what the functions accept (Derives).
-- * fathom/src/lang.rs (Location): ranges of source code and locations in files.
-- * fathom/src/literal.rs (Literal): tokens and messages (Token), integers (Parse) and floats (Float),
--   the value of integers (Value), and the messages of refused literals (Reports).
-- * fathom/src/lang/surface.rs and fathom/src/pass/core_to_surface.rs (Surface): the surface syntax
--   (Term), the distillation of core terms (Distill), what it restores (Restores), and which terms
--   have errors (Errors).
-- * fathom/src/pass/surface_to_core.rs (Surface/Elaborate): the messages (Message) and the context of
--   the elaborator with its methods (Context), how the names of locals are found (Names), how the
--   context keeps them (Aligned), and how names are elaborated (Resolve). The bodies of `check_type`
--   (Check, with Structs for struct terms and Match for matches) and of `is_type` and `synth_type`
--   (Synth), the functions themselves with `is_struct_type` and `is_struct_format` (Judgements), and
--   `from_module` (Items). What elaboration does to the context (Quiet), and what the type checker
--   says of the core terms and modules that it gives (Sound), by the typing rules of
--   Core/Typing/Derives.
--
-- Runtime/Examples, Core/Examples, Core/Binary/Examples, Core/Typing/Examples, Literal/Examples,
-- Surface/Examples and Surface/Elaborate/Examples run the code on concrete input, and so does
-- Surface/Elaborate/Omitted, on a struct term with an erroneous field.
--
-- The data reader evaluates the formats of fields with `eval`, reads numbers with the formats of the
-- runtime library, and follows links with new readers that it makes from the scope of the item. The
-- type checker evaluates the types of core terms, compares them with `is_equal`, reads them back for
-- its messages, and takes the fields of structs from the semantics. The elaborator does the same, and
-- its messages show types that it distills to surface terms; it takes numbers from the literals.
--
-- How the code is modelled. Prelude and Outcome are shared: an `Outcome` is a result, an error, a
-- panic, or the end of the fuel. A method with `&mut self` takes the state and returns it with its
-- result, also on errors; Runtime/Read and Core/Binary/Session have the two monads for that. An
-- integer of w bits is a natural number, with its wrap-around written out; a `usize` has 64 bits. A
-- sum that overflows is a panic, as in a build with overflow checks, and so is an unchecked access
-- out of bounds. A float is its bit pattern. Values are shared in the code but not changed in place,
-- so sharing is not modelled. The syntax has no locations: equality ignores them. A map with
-- ordered keys is a list in that order; a hash map is an association list of which only lookups are
-- made.
--
-- A context of the type checker collects messages in place of errors, so its methods return no
-- `Result`. The messages of core typing and of elaboration are data without their locations; those of
-- literals have them.
--
-- `eval`, `is_equal`, `read_back`, `read_format`, `synth_type` and `check_type` call themselves on
-- terms that they do not get by taking an argument apart, so each takes fuel and spends one unit on a
-- call: a term needs as much as it is deep, where globals have no definitions, and a format as much
-- as it is nested. The type checker passes what is left to the functions on values. The loop that
-- follows links has fuel of its own, one unit for each link and one for the end of the queue.
--
-- Not modelled: the lexers and grammars, which are generated, so that the lexers of literals are
-- parameters; how numbers are printed and the arithmetic of floats, which are parameters too; the
-- pretty printers, the display of diagnostics, the driver and the command line, which are input and
-- output; the test harness; and the prototypes under experiments.
pub mod Prelude
pub mod Outcome
pub mod Runtime
pub mod Ieee754
pub mod Core
pub mod Location
pub mod Literal
pub mod Surface
