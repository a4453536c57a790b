-- ===== src/Core/Typing/Message.antt =====
-- fathom/src/reporting.rs: the messages of the core type checker, without their locations.
use ddl.Prelude.{ℕ, String, List}
use ddl.Core.Term.{Term}

pub data CoreTypingMessage : Type 0 where
  global_name_not_found : String → CoreTypingMessage
  item_name_not_found : String → CoreTypingMessage
  local_index_not_found : ℕ → CoreTypingMessage
  field_redeclaration : String → CoreTypingMessage
  item_redefinition : String → CoreTypingMessage
  -- The expected type, and the type that was found.
  type_mismatch : Term → Term → CoreTypingMessage
  universe_mismatch : Term → CoreTypingMessage
  term_has_no_type : CoreTypingMessage
  not_a_function : Term → CoreTypingMessage
  field_not_found : Term → String → CoreTypingMessage
  ambiguous_term : CoreTypingMessage
  unexpected_array_term : Term → CoreTypingMessage
  duplicate_struct_fields : List String → CoreTypingMessage
  missing_struct_fields : List String → CoreTypingMessage
  unexpected_struct_fields : List String → CoreTypingMessage
  unexpected_struct_term : Term → CoreTypingMessage
