-- ===== src/Core/Binary/Session.antt =====
-- fathom/src/lang/core/binary/read.rs: the context of a read, and the state that it changes: the
-- queue of pending links, and the reader that is passed along.
use ddl.Prelude.{ℕ, List}
use ddl.Outcome.{Outcome, ok, err, panic, timeout, Fault}
use ddl.Runtime.Read.{FormatReader, ReadError, Reads, invalid_data_description}
use ddl.Core.Globals.{Globals}
use ddl.Core.Locals.{Locals}
use ddl.Core.Semantics.Value.{Value, Items}

-- The fields of `Context` that reading does not change.
pub record Context : Type 0 where
  pub globals : Globals
  pub items : Items
  pub locals : Locals Value

pub record Session : Type 0 where
  pub pending_links : List (ℕ × Value)
  pub reader : FormatReader

abbrev pub Parses {ℓ} : Type ℓ → Type ℓ
Parses A = Session → Outcome ReadError A × Session

abbrev pub after {ℓ κ} :
    {A : Type ℓ} {B : Type κ}
    → Outcome ReadError A × Session
    → (A → Parses B)
    → Outcome ReadError B × Session
after (ok a, s) f = f a s
after (err e, s) f = (err e, s)
after (panic x, s) f = (panic x, s)
after (timeout, s) f = (timeout, s)

infixl 5 ◌>>=◌
abbrev pub ◌>>=◌ {ℓ κ} : {A : Type ℓ} {B : Type κ} → Parses A → (A → Parses B) → Parses B
◌>>=◌ m f s = after (m s) f

abbrev pub pure {ℓ} : {A : Type ℓ} → A → Parses A
pure a s = (ok a, s)

abbrev pub fail {ℓ} : {A : Type ℓ} → ReadError → Parses A
fail e s = (err e, s)

-- The answer to a format that cannot be read.
abbrev pub invalid : Parses Value
invalid = fail invalid_data_description

abbrev pub abort {ℓ} : {A : Type ℓ} → Fault → Parses A
abort x s = (panic x, s)

-- A computation that has no errors of its own.
abbrev pub run {ℓ} : {A : Type ℓ} → Outcome ⊥ A → Parses A
run (ok a) s = (ok a, s)
run (err e) s = absurd e
run (panic x) s = (panic x, s)
run timeout s = (timeout, s)

-- A method of the reader.
abbrev pub on_reader {ℓ} : {A : Type ℓ} → Reads A → Parses A
on_reader m s = ((m s.reader).0, record s { reader = (m s.reader).1 })
