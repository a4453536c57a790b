-- ===== src/Core/Binary/Layout/Fits.antt =====
-- fathom/src/lang/core/binary/read.rs: parses that take a fixed number of bytes, one after the other.
use ddl.Prelude.{ℕ, ◌+◌, ◌≤◌, ◌<◌, ◌≡◌, ap, ◌∙◌, ◌⊎◌, inl, inr, length, leb, arith, Bool-cases}
use ddl.Outcome.{ok, err}
use ddl.Runtime.Read.{IsBuffer, eof, read_eof_error}
use ddl.Runtime.UInt.Decode.{at}
use ddl.Core.Binary.Session.{Session, Parses, ◌>>=◌, pure}

-- The session with its reader moved on.
abbrev pub step : Session → ℕ → Session
step s n = record s { reader = at s.reader.scope (s.reader.offset + n) }

-- The read takes `w` bytes, which are there, or they are not and it answers `Eof`.
abbrev pub Fits : {A : Type 0} → Parses A → ℕ → Session → Type 0
Fits {A} m w s =
    (s.reader.offset + w ≤ length s.reader.scope.bytes) × ((a : A) × (m s ≡ (ok a, step s w)))

abbrev pub IsShort : {A : Type 0} → Parses A → ℕ → Session → Type 0
IsShort m w s =
    (length s.reader.scope.bytes < s.reader.offset + w)
    × ((s' : Session) × (m s ≡ (err (eof read_eof_error), s')))

abbrev pub Takes : {A : Type 0} → Parses A → ℕ → Type 0
Takes m w =
    (s : Session)
    → IsBuffer s.reader.scope.bytes
    → s.reader.offset ≤ length s.reader.scope.bytes
    → Fits m w s ⊎ IsShort m w s

pub le-or-gt : (a b : ℕ) → (a ≤ b) ⊎ (b < a)
le-or-gt a b = elim (Bool-cases (leb a b)) [
  | inl fits ↦ inl (ground arith)
  | inr short ↦ inr (ground arith)
]

pub Takes-pure : {A : Type 0} (a : A) → Takes (pure a) 0
Takes-pure a s b i =
    let same : s.reader.offset ≡ s.reader.offset + 0 = omega arith in
    inl (omega arith, (a, ap (λ (n : ℕ). (ok a, record s { reader = at s.reader.scope n })) same))

steps : (s : Session) (m n : ℕ) → step (step s m) n ≡ step s (m + n)
steps s m n =
    let same : s.reader.offset + m + n ≡ s.reader.offset + (m + n) = omega arith in
    ap (λ (k : ℕ). record s { reader = at s.reader.scope k }) same

module _ {A B : Type 0} where
  bind_after :
      (m : Parses A) (f : A → Parses B) (w w' : ℕ) (s : Session) (a : A)
      → s.reader.offset + w ≤ length s.reader.scope.bytes
      → m s ≡ (ok a, step s w)
      → Fits (f a) w' (step s w) ⊎ IsShort (f a) w' (step s w)
      → Fits (m >>= f) (w + w') s ⊎ IsShort (m >>= f) (w + w') s
  bind_after m f w w' s a h e (inl (h', (c, e'))) =
      inl (omega arith, (c, rw e (e' ∙ ap (λ (t : Session). (ok c, t)) (steps s w w'))))
  bind_after m f w w' s a h e (inr (h', (t, e'))) = inr (omega arith, (t, rw e e'))

  pub Takes-bind :
      (m : Parses A) (f : A → Parses B) (w w' : ℕ)
      → Takes m w
      → ((a : A) → Takes (f a) w')
      → Takes (m >>= f) (w + w')
  Takes-bind m f w w' k h s b i = elim (k s b i) [
    | inl (fits, (a, e)) ↦ bind_after m f w w' s a fits e (h a (step s w) b fits)
    | inr (short, (t, e)) ↦ inr (omega arith, (t, rw e))
  ]

-- The value that is read is put into another one.
pub Takes-map :
    {A B : Type 0} (m : Parses A) (f : A → B) (w : ℕ) → Takes m w → Takes (m >>= λ a. pure (f a)) w
Takes-map m f w k s b i = elim (k s b i) [
  | inl (fits, (a, e)) ↦ inl (fits, (f a, rw e))
  | inr (short, (t, e)) ↦ inr (short, (t, rw e))
]
