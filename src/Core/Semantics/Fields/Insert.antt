-- ===== src/Core/Semantics/Fields/Insert.antt =====
-- fathom/src/lang/core/semantics.rs: the fields of a struct after an insertion.
use Prim.Native.String.{compare}
use Prim.Native.Nat.{Ordering}
use text.Mathlib.Text.{◌==◌ as str_eq}
use text.Mathlib.TextEquality.{eq_iff, path_by_compare}
use text.Mathlib.TextPositions.{compare_refl}
use ddl.Prelude.{String, some, if◌then◌else◌, ◌≡◌, refl, arith}
use ddl.Core.Semantics.Value.{Value, FieldValues, no_fields, field, insert, get_field}

ordered :
    (o : Ordering) (name name' label : String) (value value' : Value) (rest : FieldValues)
    → compare name name' ≡ o
    → get_field (insert name value rest) label
      ≡ (if str_eq name label then some value else get_field rest label)
    → get_field
        (elim o [
          | Ordering.lt ↦ field name value (field name' value' rest)
          | Ordering.eq ↦ field name value rest
          | Ordering.gt ↦ field name' value' (insert name value rest)
        ])
        label
      ≡ (if str_eq name label then some value else get_field (field name' value' rest) label)
unfolding get_field
ordered Ordering.lt name name' label value value' rest o ih = refl
ordered Ordering.eq name name' label value value' rest o ih =
    let same = path_by_compare name name' o in ground (arith, eq_iff name label, eq_iff name' label)
ordered Ordering.gt name name' label value value' rest o ih =
    ground (arith, eq_iff name label, eq_iff name' label, compare_refl name)

-- A field that is inserted is found, and the others are as they were.
pub get_field-insert :
    (name label : String) (value : Value) (fields : FieldValues)
    → get_field (insert name value fields) label
      ≡ (if str_eq name label then some value else get_field fields label)
unfolding insert get_field
get_field-insert name label value no_fields = refl
get_field-insert name label value (field name' value' rest) =
    ordered (compare name name') name name' label value value' rest refl
      (get_field-insert name label value rest)
