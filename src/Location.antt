-- ===== src/Location.antt =====
-- fathom/src/lang.rs: ranges of source code, and locations in files.
use ddl.Prelude.{ℕ, ◌≤◌, ◌≡◌, ◌↔◌, ◌≢◌, leb, ◌==◌, if◌then◌else◌, arith}
use ddl.Outcome.{Outcome, ok, panic, explicit_panic}

pub record Range : Type 0 where
  pub start : ℕ
  pub end : ℕ

pub data Location : Type 0 where
  generated : Location
  file_range : ℕ → Range → Location

-- `std::cmp::min` and `std::cmp::max`
abbrev min : ℕ → ℕ → ℕ
min a b = if leb a b then a else b

abbrev max : ℕ → ℕ → ℕ
max a b = if leb a b then b else a

unfoldable pub merge_range : Range → Range → Range
merge_range range other = record {
  start = min range.start other.start;
  end = max range.end other.end;
}

unfoldable pub range_start : Range → Range
range_start range = record { start = range.start; end = range.start }

unfoldable pub range_end : Range → Range
range_end range = record { start = range.end; end = range.end }

unfoldable pub location_start : Location → Location
unfolding range_start
location_start generated = generated
location_start (file_range file_id range) = file_range file_id (range_start range)

unfoldable pub location_end : Location → Location
unfolding range_end
location_end generated = generated
location_end (file_range file_id range) = file_range file_id (range_end range)

-- Ranges of two files are not merged: `assert_eq!` panics.
unfoldable pub merge : Location → Location → Outcome ⊥ Location
unfolding merge_range
merge generated generated = ok generated
merge (file_range file_id0 range0) (file_range file_id1 range1) =
    if file_id0 == file_id1
    then ok (file_range file_id0 (merge_range range0 range1))
    else panic explicit_panic
merge _ _ = ok generated

abbrev pub Covers : Range → Range → Type 0
Covers r s = (r.start ≤ s.start) × (s.end ≤ r.end)

Covers-merge_range : (a b c : Range) → Covers c (merge_range a b) ↔ (Covers c a × Covers c b)
unfolding merge_range
Covers-merge_range a b c = (λ h. ground (arith, h), λ h. ground (arith, h))

-- Two locations of one file merge to a location of that file, with the least range that covers both of
-- theirs: a range covers it exactly if it covers the two. Locations of different files panic.
pub merge-Covers :
    (i j : ℕ) (a b : Range)
    → (i ≡ j
        → (r : Range) × (merge (file_range i a) (file_range j b) ≡ ok (file_range i r))
          × ((c : Range) → Covers c r ↔ (Covers c a × Covers c b)))
      × (i ≢ j → merge (file_range i a) (file_range j b) ≡ panic explicit_panic)
unfolding merge
merge-Covers i j a b =
    (λ e. (merge_range a b, ground (arith, e), Covers-merge_range a b), λ n. ground (arith, n))
