-- ===== src/Surface/Elaborate/Context.antt =====
-- fathom/src/pass/surface_to_core.rs: the context of the elaborator, and its methods that do not
-- elaborate terms. Each takes the fuel of the functions on values that it calls.
use text.Mathlib.Text.{◌==◌ as str_eq}
use ddl.Prelude.{
  ℕ, suc, String, List, [], ◌∷◌, ◌++◌, Bool, Option, some, none, take, reverse, if◌then◌else◌,
}
use ddl.Outcome.{Outcome, ok, panic, explicit_panic}
use ddl.Outcome as Outcomes
use ddl.Core.Term as Core
use ddl.Core.Term.{get_entry}
use ddl.Core.Globals.{Globals}
use ddl.Core.Locals.{Locals}
use ddl.Core.Locals
use ddl.Core.Semantics.Value.{Value, Elims, ItemData, Items, local_value, try_item}
use ddl.Core.Semantics.Fields.{FieldDeclarations, try_field_declarations}
use ddl.Core.Semantics.Eval
use ddl.Core.Semantics.ReadBack
use ddl.Core.Semantics.Equal
use ddl.Surface.Term.{Term}
use ddl.Surface.Distill.{Display, Names, from_term}
use ddl.Surface.Elaborate.Message.{Message}

-- `core_to_surface` holds the names of the locals, for distillation.
pub record Context : Type 0 where
  pub globals : Globals
  pub item_declarations : List (String × Value)
  pub item_definitions : Items
  pub local_declarations : List (String × Value)
  pub local_definitions : Locals Value
  pub core_to_surface : Names
  pub messages : List Message

-- A method with `&mut self`. It has no errors: it leaves messages.
abbrev pub Elaborates : Type 0 → Type 0
Elaborates A = Context → Outcome ⊥ (A × Context)

infixl 5 ◌>>=◌ ◌>>◌
abbrev pub ◌>>=◌ : {A B : Type 0} → Elaborates A → (A → Elaborates B) → Elaborates B
m >>= f = λ c. Outcomes.◌>>=◌ (m c) λ r. f r.0 r.1

abbrev pub ◌>>◌ : {B : Type 0} → Elaborates (Unit {0}) → Elaborates B → Elaborates B
m >> k = m >>= λ _. k

abbrev pub pure : {A : Type 0} → A → Elaborates A
pure a = λ c. ok (a, c)

-- A function that reads the context.
abbrev pub reads : {A : Type 0} → (Context → Outcome ⊥ A) → Elaborates A
reads f = λ c. Outcomes.◌>>=◌ (f c) λ a. ok (a, c)

unfoldable pub new : Globals → Context
new globals = record {
  globals = globals;
  item_declarations = [];
  item_definitions = [];
  local_declarations = [];
  local_definitions = Locals.new;
  core_to_surface = Locals.new;
  messages = [];
}

abbrev pub size : Context → ℕ
size c = Locals.size c.local_definitions

-- The first declaration of the name, counted from `index`.
abbrev pub find_name : String → ℕ → List (String × Value) → Option (Value × ℕ)
find_name name index [] = none
find_name name index ((decl_name, type') ∷ rest) =
    if str_eq decl_name name then some (type', index) else find_name name (suc index) rest

unfoldable pub get_local : Context → String → Option (Value × ℕ)
get_local c name = find_name name 0 (reverse c.local_declarations)

unfoldable pub push_local : String → Value → Value → Elaborates (Unit {0})
push_local name value type' c = ok (
  tt,
  record c {
    local_declarations = c.local_declarations ++ ((name, type') ∷ []);
    local_definitions = Locals.push c.local_definitions value;
    core_to_surface = Locals.push c.core_to_surface name;
  },
)

unfoldable pub push_local_param : String → Value → Elaborates Value
unfolding push_local
push_local_param name type' = do
  value ← reads λ c. ok (local_value (size c))
  push_local name value type'
  pure value

unfoldable pub truncate_locals : ℕ → Elaborates (Unit {0})
truncate_locals local_size c = ok (
  tt,
  record c {
    local_declarations = take local_size c.local_declarations;
    local_definitions = Locals.truncate c.local_definitions local_size;
    core_to_surface = Locals.truncate c.core_to_surface local_size;
  },
)

unfoldable pub push_message : Message → Elaborates (Unit {0})
push_message message c = ok (tt, record c { messages = c.messages ++ (message ∷ []) })

unfoldable pub drain_messages : Elaborates (List Message)
drain_messages c = ok (c.messages, record c { messages = [] })

abbrev pub force_found : Elims → Option ItemData → Outcome ⊥ (Option (ItemData × Elims))
force_found elims none = panic explicit_panic
force_found elims (some item) = ok (some (item, elims))

abbrev pub force_named : Items → Option (String × Elims) → Outcome ⊥ (Option (ItemData × Elims))
force_named items none = ok none
force_named items (some (name, elims)) = force_found elims (get_entry items name)

unfoldable pub force_item : Value → Elaborates (Option (ItemData × Elims))
force_item value = reads λ c. force_named c.item_definitions (try_item value)

abbrev pub declarations_of_item : Option (ItemData × Elims) → Outcome ⊥ (Option FieldDeclarations)
declarations_of_item none = ok none
declarations_of_item (some (item, elims)) = try_field_declarations item elims

unfoldable pub force_field_declarations : Value → Elaborates (Option FieldDeclarations)
unfolding force_item
force_field_declarations value = do item ← force_item value; reads λ c. declarations_of_item item

unfoldable pub eval : ℕ → Core.Term → Elaborates Value
eval fuel term = reads λ c. Eval.eval fuel c.globals c.item_definitions c.local_definitions term

unfoldable pub read_back : ℕ → Value → Elaborates Core.Term
read_back fuel value =
    reads λ c. ReadBack.read_back fuel c.globals c.item_definitions (size c) value

unfoldable pub is_equal : ℕ → Value → Value → Elaborates Bool
is_equal fuel value0 value1 =
    reads λ c. Equal.is_equal fuel c.globals c.item_definitions value0 value1

module _ (display : Display) where
  unfoldable pub distill : Core.Term → Elaborates Term
  unfolding from_term
  distill core_term = reads λ c. ok (from_term display c.core_to_surface core_term)

  unfoldable pub read_back_to_surface : ℕ → Value → Elaborates Term
  unfolding read_back distill
  read_back_to_surface fuel value = do core_term ← read_back fuel value; distill core_term
