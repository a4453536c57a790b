-- ===== src/Core/Typing/Context.antt =====
-- fathom/src/lang/core/typing.rs: the context of the type checker, and its methods that do not check
-- terms. Each takes the fuel of the functions on values that it calls.
use ddl.Prelude.{ℕ, String, List, [], ◌∷◌, ◌++◌, Bool, Option, some, none, take, get_elem?}
use ddl.Outcome.{Outcome, ok, err, panic, timeout, explicit_panic, Fault}
use ddl.Outcome as Outcomes
use ddl.Core.Term.{Term, get_entry}
use ddl.Core.Globals.{Globals}
use ddl.Core.Locals.{Locals, index_to_level}
use ddl.Core.Locals
use ddl.Core.Semantics.Value.{Value, Elims, ItemData, Items, local_value, try_item}
use ddl.Core.Semantics.Fields.{FieldDeclarations, try_field_declarations}
use ddl.Core.Semantics.Eval
use ddl.Core.Semantics.ReadBack
use ddl.Core.Semantics.Equal
use ddl.Core.Typing.Message.{CoreTypingMessage}

-- The declarations hold types, the definitions values.
pub record Context : Type 0 where
  pub globals : Globals
  pub item_declarations : List (String × Value)
  pub item_definitions : Items
  pub local_declarations : List Value
  pub local_definitions : Locals Value
  pub messages : List CoreTypingMessage

-- A method with `&mut self` of the context. It has no errors: it leaves messages.
abbrev pub Checks : Type 0 → Type 0
Checks A = Context → Outcome ⊥ (A × Context)

infixl 5 ◌>>=◌ ◌>>◌
abbrev pub ◌>>=◌ : {A B : Type 0} → Checks A → (A → Checks B) → Checks B
◌>>=◌ m f c = Outcomes.◌>>=◌ (m c) λ r. f r.0 r.1

abbrev pub ◌>>◌ : {B : Type 0} → Checks (Unit {0}) → Checks B → Checks B
m >> k = m >>= λ _. k

abbrev pub pure : {A : Type 0} → A → Checks A
pure a c = ok (a, c)

-- A function that reads the context.
abbrev pub reads : {A : Type 0} → (Context → Outcome ⊥ A) → Checks A
reads f c = Outcomes.◌>>=◌ (f c) λ a. ok (a, c)

unfoldable pub new : Globals → Context
new globals = record {
  globals = globals;
  item_declarations = [];
  item_definitions = [];
  local_declarations = [];
  local_definitions = Locals.new;
  messages = [];
}

abbrev pub size : Context → ℕ
size c = Locals.size c.local_definitions

abbrev pub declaration_at : List Value → Option ℕ → Option Value
declaration_at declarations none = none
declaration_at declarations (some level) = get_elem? declarations level

unfoldable pub get_local_type : Context → ℕ → Option Value
get_local_type c index = declaration_at c.local_declarations (index_to_level (size c) index)

unfoldable pub push_local : Value → Value → Checks (Unit {0})
push_local value type' c = ok (
  tt,
  record c {
    local_declarations = c.local_declarations ++ (type' ∷ []);
    local_definitions = Locals.push c.local_definitions value;
  },
)

unfoldable pub push_local_param : Value → Checks Value
unfolding push_local
push_local_param type' = do
  value ← reads λ c. ok (local_value (size c))
  push_local value type'
  pure value

unfoldable pub truncate_locals : ℕ → Checks (Unit {0})
truncate_locals local_size c = ok (
  tt,
  record c {
    local_declarations = take local_size c.local_declarations;
    local_definitions = Locals.truncate c.local_definitions local_size;
  },
)

unfoldable pub push_message : CoreTypingMessage → Checks (Unit {0})
push_message message c = ok (tt, record c { messages = c.messages ++ (message ∷ []) })

unfoldable pub drain_messages : Checks (List CoreTypingMessage)
drain_messages c = ok (c.messages, record c { messages = [] })

abbrev pub force_found : Elims → Option ItemData → Outcome ⊥ (Option (ItemData × Elims))
force_found elims none = panic explicit_panic
force_found elims (some item) = ok (some (item, elims))

abbrev pub force_named : Items → Option (String × Elims) → Outcome ⊥ (Option (ItemData × Elims))
force_named items none = ok none
force_named items (some (name, elims)) = force_found elims (get_entry items name)

unfoldable pub force_item : Value → Checks (Option (ItemData × Elims))
force_item value = reads λ c. force_named c.item_definitions (try_item value)

abbrev pub declarations_of_item : Option (ItemData × Elims) → Outcome ⊥ (Option FieldDeclarations)
declarations_of_item none = ok none
declarations_of_item (some (item, elims)) = try_field_declarations item elims

unfoldable pub force_field_declarations : Value → Checks (Option FieldDeclarations)
unfolding force_item
force_field_declarations value = do item ← force_item value; reads λ c. declarations_of_item item

unfoldable pub eval : ℕ → Term → Checks Value
eval fuel term = reads λ c. Eval.eval fuel c.globals c.item_definitions c.local_definitions term

unfoldable pub read_back : ℕ → Value → Checks Term
read_back fuel value =
    reads λ c. ReadBack.read_back fuel c.globals c.item_definitions (size c) value

unfoldable pub is_equal : ℕ → Value → Value → Checks Bool
is_equal fuel value0 value1 =
    reads λ c. Equal.is_equal fuel c.globals c.item_definitions value0 value1
