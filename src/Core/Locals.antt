-- ===== src/Core/Locals.antt =====
-- fathom/src/lang/core.rs: de Bruijn indices and levels, and local environments.
use ddl.Prelude.{
  ℕ, zero, suc, ◌+◌, ◌-◌, ◌%◌, ◌^◌, ◌<◌, ◌≤◌, ◌≡◌, ◌↔◌, refl, ◌∙◌, Option, none, some, List, [],
  ◌∷◌, ◌++◌, length, take, get_elem?, ltb, leb, if◌then◌else◌, arith, length-append, get_elem?-some,
}
use ddl.Outcome.{Outcome, ok, panic, arithmetic_overflow}

abbrev pub u32_end : ℕ
u32_end = 2 ^ 32

-- `u32::checked_sub`
abbrev pub checked_sub : ℕ → ℕ → Option ℕ
checked_sub a b = if leb b a then some (a - b) else none

infixl 5 ◌>>=?◌
abbrev ◌>>=?◌ : Option ℕ → (ℕ → Option ℕ) → Option ℕ
none >>=? f = none
some a >>=? f = f a

-- A `LocalSize`, a `LocalIndex` and a `LocalLevel` are the numbers that they hold.
unfoldable pub increment : ℕ → Outcome ⊥ ℕ
increment size = if ltb (size + 1) u32_end then ok (size + 1) else panic arithmetic_overflow

unfoldable pub index_to_level : ℕ → ℕ → Option ℕ
index_to_level size index = checked_sub size index >>=? λ n. checked_sub n 1

unfoldable pub level_to_index : ℕ → ℕ → Option ℕ
level_to_index size level = checked_sub size level >>=? λ n. checked_sub n 1

-- An index has a level exactly if it lies in the environment, and the two conversions are inverse
-- to one another.
pub index_to_level_inverse :
    (size index level : ℕ)
    → ((index_to_level size index ≡ some level) ↔ (level_to_index size level ≡ some index))
      × ((index_to_level size index ≡ none) ↔ (size ≤ index))
unfolding index_to_level level_to_index
index_to_level_inverse size index level =
    ((λ e. ground arith, λ e. ground arith), (λ e. ground arith, λ e. ground arith))

-- A `Locals<Entry>`, the newest entry last.
pub record Locals {ℓ} (Entry : Type ℓ) : Type ℓ where
  pub entries : List Entry

module _ {ℓ} {Entry : Type ℓ} where
  abbrev pub new : Locals Entry
  new = record { entries = [] }

  -- `self.entries.len() as u32`
  unfoldable pub size : Locals Entry → ℕ
  size locals = length locals.entries % u32_end

  abbrev entry_at : List Entry → Option ℕ → Option Entry
  entry_at xs none = none
  entry_at xs (some level) = get_elem? xs level

  unfoldable pub get : Locals Entry → ℕ → Option Entry
  unfolding size index_to_level
  get locals index = entry_at locals.entries (index_to_level (size locals) index)

  unfoldable pub push : Locals Entry → Entry → Locals Entry
  push locals entry = record { entries = locals.entries ++ (entry ∷ []) }

  -- `Vector::pop_back`
  abbrev pop_back : List Entry → Option (Entry × List Entry)
  pop_back [] = none
  pop_back (x ∷ xs) = elim (pop_back xs) [
    | none ↦ some (x, [])
    | some (last, front) ↦ some (last, x ∷ front)
  ]

  unfoldable pub pop : Locals Entry → Option Entry × Locals Entry
  pop locals = elim (pop_back locals.entries) [
    | none ↦ (none, locals)
    | some (last, front) ↦ (some last, record { entries = front })
  ]

  -- `Vector::truncate`
  unfoldable pub truncate : Locals Entry → ℕ → Locals Entry
  truncate locals n = record { entries = take n locals.entries }

  unfoldable pub clear : Locals Entry → Locals Entry
  clear locals = record { entries = [] }

pub get_elem?-snoc_last {ℓ} :
    {A : Type ℓ} (xs : List A) (x : A) (i : ℕ)
    → i ≡ length xs
    → get_elem? (xs ++ (x ∷ [])) i ≡ some x
get_elem?-snoc_last [] x zero h = refl
get_elem?-snoc_last [] x (suc i) h = absurd (omega arith)
get_elem?-snoc_last (y ∷ xs) x zero h = absurd (omega arith)
get_elem?-snoc_last (y ∷ xs) x (suc i) h = get_elem?-snoc_last xs x i (omega arith)

pub get_elem?-snoc {ℓ} :
    {A : Type ℓ} (xs : List A) (x : A) (i : ℕ)
    → i < length xs
    → get_elem? (xs ++ (x ∷ [])) i ≡ get_elem? xs i
get_elem?-snoc [] x i h = elim h [ ]
get_elem?-snoc (y ∷ xs) x zero h = refl
get_elem?-snoc (y ∷ xs) x (suc i) h = get_elem?-snoc xs x i (omega arith)

pop_back-snoc {ℓ} : {A : Type ℓ} (xs : List A) (x : A) → pop_back (xs ++ (x ∷ [])) ≡ some (x, xs)
pop_back-snoc [] x = refl
pop_back-snoc (y ∷ xs) x = rw (pop_back-snoc xs x)

module _ {Entry : Type 0} (locals : Locals Entry) (entry : Entry) where
  -- While the size fits a `u32`, the newest entry has index 0, and the others move up by one.
  pub get-push :
      (index : ℕ)
      → length locals.entries + 1 < u32_end
      → (get (push locals entry) 0 ≡ some entry)
        × (get (push locals entry) (suc index) ≡ get locals index)
  unfolding get push
  get-push index h =
      let long : length (locals.entries ++ (entry ∷ [])) ≡ length locals.entries + 1 =
        length-append locals.entries (entry ∷ []) ∙ omega arith in
      (
        ground (arith, long, get_elem?-snoc_last locals.entries entry (length locals.entries)),
        ground
            (arith, long, get_elem?-snoc locals.entries entry (length locals.entries - index - 1)),
      )

  -- `pop` undoes `push`.
  pub pop-push : pop (push locals entry) ≡ (some entry, locals)
  unfolding pop push
  pop-push = rw (pop_back-snoc locals.entries entry, pop)

-- Every index below the size is found.
pub get-some :
    {Entry : Type 0} (locals : Locals Entry) (index : ℕ)
    → length locals.entries < u32_end
    → index < length locals.entries
    → (entry : Entry) × (get locals index ≡ some entry)
unfolding get
get-some locals index fits h =
    let (entry, e) =
      get_elem?-some locals.entries (length locals.entries - index - 1) (omega arith) in
    (entry, ground arith)

-- No index at or above the size is found.
pub get-none :
    {Entry : Type 0} (locals : Locals Entry) (index : ℕ)
    → length locals.entries < u32_end
    → length locals.entries ≤ index
    → get locals index ≡ none
unfolding get size
get-none locals index fits h =
    let e : index_to_level (size locals) index ≡ none = ground (arith, fits, h) in rw e
