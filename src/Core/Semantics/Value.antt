-- ===== src/Core/Semantics/Value.antt =====
-- fathom/src/lang/core/semantics.rs: values, stuck heads and their spines of eliminators.
use Prim.Native.String.{compare}
use Prim.Native.Nat.{Ordering}
use text.Mathlib.Text.{◌==◌ as str_eq}
use ddl.Prelude.{ℕ, suc, String, List, [], ◌∷◌, Option, none, some, if◌then◌else◌, ◌≡◌, refl}
use ddl.Core.Term.{Term, Branches, Sort, Primitive, FieldDeclaration}
use ddl.Core.Locals.{Locals}

pub data Head : Type 0 where
  global : String → Head
  item : String → Head
  local : ℕ → Head
  error : Head

-- `Values` is a list of values: the items of an array, or the entries of a local environment that
-- an eliminator has captured. `FieldValues` is `BTreeMap<String, Arc<Value>>` in the order of its
-- keys. `Elims` is `Vec<Elim>`.
mutual
  pub data Value : Type 0 where
    stuck : Head → Elims → Value
    sort : Sort → Value
    function_type : Value → Value → Value
    struct_term : FieldValues → Value
    array_term : Values → Value
    primitive : Primitive → Value
    format_type : Value
    repr : Value
    error : Value

  pub data Elims : Type 0 where
    no_elims : Elims
    more_elims : Elim → Elims → Elims

  pub data Elim : Type 0 where
    function : Value → Elim
    struct : String → Elim
    bool : Values → Term → Term → Elim
    int : Values → Branches → Term → Elim
    to_repr : Elim

  pub data Values : Type 0 where
    no_values : Values
    more_values : Value → Values → Values

  pub data FieldValues : Type 0 where
    no_fields : FieldValues
    field : String → Value → FieldValues → FieldValues

-- `elims.push(elim)`
unfoldable pub push : Elims → Elim → Elims
push no_elims elim' = more_elims elim' no_elims
push (more_elims first rest) elim' = more_elims first (push rest elim')

unfoldable pub count_elims : Elims → ℕ
count_elims no_elims = 0
count_elims (more_elims first rest) = suc (count_elims rest)

-- `BTreeMap::insert`: a key that is there keeps its place and gets the new value.
unfoldable pub insert : String → Value → FieldValues → FieldValues
insert name value no_fields = field name value no_fields
insert name value (field name' value' rest) = elim (compare name name') [
  | Ordering.lt ↦ field name value (field name' value' rest)
  | Ordering.eq ↦ field name value rest
  | Ordering.gt ↦ field name' value' (insert name value rest)
]

-- `BTreeMap::get`
unfoldable pub get_field : FieldValues → String → Option Value
get_field no_fields name = none
get_field (field name' value rest) name =
    if str_eq name' name then some value else get_field rest name

unfoldable pub count_fields : FieldValues → ℕ
count_fields no_fields = 0
count_fields (field name value rest) = suc (count_fields rest)

-- A local environment inside a value, and out of it.
unfoldable pub to_values : List Value → Values
to_values [] = no_values
to_values (v ∷ vs) = more_values v (to_values vs)

unfoldable pub to_list : Values → List Value
to_list no_values = []
to_list (more_values v vs) = v ∷ to_list vs

abbrev pub capture : Locals Value → Values
capture locals = to_values locals.entries

abbrev pub release : Values → Locals Value
release vs = record { entries = to_list vs }

pub to_list-to_values : (vs : List Value) → to_list (to_values vs) ≡ vs
unfolding to_list to_values
to_list-to_values [] = refl
to_list-to_values (v ∷ vs) = rw (to_list-to_values vs)

-- `Value::global`, `Value::item`, `Value::local` and the constructors of primitives.
abbrev pub global_value : String → Value
global_value name = stuck (global name) no_elims

abbrev pub item_value : String → Value
item_value name = stuck (item name) no_elims

abbrev pub local_value : ℕ → Value
local_value level = stuck (local level) no_elims

abbrev pub try_global : Value → Option (String × Elims)
try_global (stuck (global name) elims) = some (name, elims)
try_global _ = none

abbrev pub try_item : Value → Option (String × Elims)
try_item (stuck (item name) elims) = some (name, elims)
try_item _ = none

-- An evaluated item, with the number of parameters of a struct.
pub data ItemData : Type 0 where
  constant : Value → ItemData
  struct_type : ℕ → List FieldDeclaration → ItemData
  struct_format : ℕ → List FieldDeclaration → ItemData

-- `HashMap<String, Item>`
abbrev pub Items : Type 0
Items = List (String × ItemData)
