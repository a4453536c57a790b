-- ===== src/Runtime/Read.antt =====
-- fathom-runtime/src/read.rs: errors, scopes of a buffer and readers that move through one.
use ddl.Prelude.{
  ℕ, ◌+◌, ◌^◌, ◌<◌, Option, none, some, List, [], length, get_elem?, drop, All, ltb, leb,
  if◌then◌else◌,
}
use ddl.Outcome.{Outcome, ok, err, panic, timeout, out_of_bounds, arithmetic_overflow}

-- The unit struct `ReadEofError {}`.
pub data ReadEofError : Type 0 where
  read_eof_error : ReadEofError

pub data ReadError : Type 0 where
  invalid_data_description : ReadError
  duplicate_position : ℕ → ReadError
  overflowing_position : ReadError
  eof : ReadEofError → ReadError

-- One past the largest `usize`, on a target of 64 bits.
abbrev pub usize_end : ℕ
usize_end = 2 ^ 64

-- `usize::checked_add`
abbrev pub checked_add : ℕ → ℕ → Option ℕ
checked_add a b = if ltb (a + b) usize_end then some (a + b) else none

abbrev pub IsByte : ℕ → Type 0
IsByte b = b < 256

pub record ReadScope : Type 0 where
  pub base : ℕ
  pub bytes : List ℕ

pub record FormatReader : Type 0 where
  pub scope : ReadScope
  pub offset : ℕ

-- What the type `&[u8]` guarantees: the items are bytes, and a slice is shorter than `usize`.
pub record IsBuffer (xs : List ℕ) : Type 0 where
  pub in_memory : length xs < usize_end
  pub all_bytes : All IsByte xs

-- A method with `&mut self` of a reader: its result, with the reader that it leaves.
abbrev pub Reads {ℓ} : Type ℓ → Type ℓ
Reads A = FormatReader → Outcome ReadError A × FormatReader

abbrev pub after {ℓ κ} :
    {A : Type ℓ} {B : Type κ}
    → Outcome ReadError A × FormatReader
    → (A → Reads B)
    → Outcome ReadError B × FormatReader
after (ok a, r) f = f a r
after (err e, r) f = (err e, r)
after (panic x, r) f = (panic x, r)
after (timeout, r) f = (timeout, r)

infixl 5 ◌>>=◌
abbrev pub ◌>>=◌ {ℓ κ} : {A : Type ℓ} {B : Type κ} → Reads A → (A → Reads B) → Reads B
◌>>=◌ m f r = after (m r) f

abbrev pub pure {ℓ} : {A : Type ℓ} → A → Reads A
pure a r = (ok a, r)

unfoldable pub new_scope : List ℕ → ReadScope
new_scope xs = record { base = 0; bytes = xs }

unfoldable pub reader : ReadScope → FormatReader
reader s = record { scope = s; offset = 0 }

-- `self.data.get(offset..).unwrap_or(&[])`: a range that starts past the end is `None`.
unfoldable pub data_from : ℕ → List ℕ → List ℕ
data_from offset xs = if leb offset (length xs) then drop offset xs else []

-- `self.base + offset` is an unchecked sum, which panics where overflow checks are on.
unfoldable pub scope_offset : ReadScope → ℕ → Outcome ReadError ReadScope
scope_offset s offset =
    if ltb (s.base + offset) usize_end
    then ok (record { base = s.base + offset; bytes = data_from offset s.bytes })
    else panic arithmetic_overflow

-- `FormatReader::scope`
unfoldable pub reader_scope : FormatReader → Outcome ReadError ReadScope
reader_scope r = scope_offset r.scope r.offset

unfoldable pub current_pos : FormatReader → Option ℕ
current_pos r = checked_add r.scope.base r.offset

-- `get_unchecked` out of range is undefined behaviour.
unfoldable pub read_unchecked_u8 : Reads ℕ
read_unchecked_u8 r = elim (get_elem? r.scope.bytes r.offset) [
  | none ↦ (panic out_of_bounds, r)
  | some byte ↦
      if ltb (r.offset + 1) usize_end
      then (ok byte, record r { offset = r.offset + 1 })
      else (panic arithmetic_overflow, r)
]

abbrev available : ℕ → Option ℕ → Outcome ReadError (Unit {0})
available len none = err (eof read_eof_error)
available len (some end_pos) = if leb end_pos len then ok tt else err (eof read_eof_error)

-- With the conversion of `ReadEofError` into `ReadError` by `?`.
unfoldable pub check_available : ℕ → Reads (Unit {0})
check_available count r = (available (length r.scope.bytes) (checked_add r.offset count), r)
