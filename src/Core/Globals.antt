-- ===== src/Core/Globals.antt =====
-- fathom/src/lang/core.rs: the global environment, a map from names to a type and a definition.
use ddl.Prelude.{String, List, [], ◌∷◌, Option, none}
use ddl.Core.Term.{Term, global, sort, type, format_type, function_type, get_entry}

pub record Globals : Type 0 where
  pub entries : List (String × (Term × Option Term))

unfoldable pub get : Globals → String → Option (Term × Option Term)
get globals name = get_entry globals.entries name

-- A global with a type and no definition.
abbrev opaque : String → Term → String × (Term × Option Term)
opaque name type' = (name, (type', none))

-- `Globals::default`. The map is built by insertions under names that differ, so their order does
-- not matter to `get`.
unfoldable pub default : Globals
default = record {
  entries =
      opaque "Int" (sort type)
      ∷ opaque "F32" (sort type)
      ∷ opaque "F64" (sort type)
      ∷ opaque "Bool" (sort type)
      ∷ opaque "true" (global "Bool")
      ∷ opaque "false" (global "Bool")
      ∷ opaque "Array" (function_type (global "Int") (function_type (sort type) (sort type)))
      ∷ opaque "Pos" (sort type)
      ∷ opaque "U8" format_type
      ∷ opaque "U16Le" format_type
      ∷ opaque "U16Be" format_type
      ∷ opaque "U32Le" format_type
      ∷ opaque "U32Be" format_type
      ∷ opaque "U64Le" format_type
      ∷ opaque "U64Be" format_type
      ∷ opaque "S8" format_type
      ∷ opaque "S16Le" format_type
      ∷ opaque "S16Be" format_type
      ∷ opaque "S32Le" format_type
      ∷ opaque "S32Be" format_type
      ∷ opaque "S64Le" format_type
      ∷ opaque "S64Be" format_type
      ∷ opaque "F32Le" format_type
      ∷ opaque "F32Be" format_type
      ∷ opaque "F64Le" format_type
      ∷ opaque "F64Be" format_type
      ∷ opaque "FormatArray" (function_type (global "Int") (function_type format_type format_type))
      ∷ opaque "CurrentPos" format_type
      ∷ opaque "Link" (
          function_type (global "Pos")
            (function_type (global "Int") (function_type format_type format_type)))
      ∷ [];
}
