-- ===== src/Prelude/Maps.antt =====
-- Maps with `String` keys as lists in the order of their keys, the shape of a `BTreeMap`.
use Prim.Native.String.{compare}
use Prim.Native.Nat.{Ordering}
use text.Mathlib.Text.{◌==◌ as str_eq}
use ddl.Prelude.Tests.{if◌then◌else◌}
use Prim.Native.String.{String}
use mathlib.Core.List.{List, [], ◌∷◌}

module _ {ℓ} {V : Type ℓ} where
  -- A key that is there keeps its place and gets the new value.
  abbrev pub insert_entry : String → V → List (String × V) → List (String × V)
  insert_entry name value [] = (name, value) ∷ []
  insert_entry name value ((name', value') ∷ rest) = elim (compare name name') [
    | Ordering.lt ↦ (name, value) ∷ (name', value') ∷ rest
    | Ordering.eq ↦ (name, value) ∷ rest
    | Ordering.gt ↦ (name', value') ∷ insert_entry name value rest
  ]

  abbrev pub remove_entry : String → List (String × V) → List (String × V)
  remove_entry name [] = []
  remove_entry name ((name', value') ∷ rest) =
      if str_eq name' name then rest else (name', value') ∷ remove_entry name rest
