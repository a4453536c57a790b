-- ===== src/Surface/Elaborate/Message.antt =====
-- fathom/src/reporting.rs: the messages of elaboration, without locations.
use ddl.Prelude.{ℕ, String, List}
use ddl.Literal.Token.{LiteralParseMessage}
use ddl.Surface.Term.{Term}

pub data SurfaceToCoreMessage : Type 0 where
  missing_struct_annotation : String → SurfaceToCoreMessage
  invalid_struct_annotation : String → Term → SurfaceToCoreMessage
  field_redeclaration : String → SurfaceToCoreMessage
  item_redefinition : String → SurfaceToCoreMessage
  type_mismatch : Term → Term → SurfaceToCoreMessage
  universe_mismatch : Term → SurfaceToCoreMessage
  term_has_no_type : SurfaceToCoreMessage
  not_a_function : Term → SurfaceToCoreMessage
  field_not_found : Term → String → SurfaceToCoreMessage
  ambiguous_match_expression : SurfaceToCoreMessage
  var_name_not_found : String → SurfaceToCoreMessage
  mismatched_array_length : ℕ → Term → SurfaceToCoreMessage
  unexpected_sequence_term : Term → SurfaceToCoreMessage
  numeric_literal_not_supported : Term → SurfaceToCoreMessage
  ambiguous_sequence_term : SurfaceToCoreMessage
  ambiguous_numeric_literal : SurfaceToCoreMessage
  ambiguous_struct_term : SurfaceToCoreMessage
  unsupported_pattern_type : Term → SurfaceToCoreMessage
  no_default_pattern : SurfaceToCoreMessage
  unreachable_pattern : SurfaceToCoreMessage
  duplicate_struct_fields : List String → SurfaceToCoreMessage
  missing_struct_fields : List String → SurfaceToCoreMessage
  unexpected_struct_fields : List String → SurfaceToCoreMessage
  unexpected_struct_term : Term → SurfaceToCoreMessage

-- The messages that elaboration leaves, its own and those on literals.
pub data Message : Type 0 where
  surface_to_core : SurfaceToCoreMessage → Message
  literal_parse : LiteralParseMessage → Message
  not_yet_implemented : String → Message
