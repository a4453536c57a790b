-- ===== src/Core/Binary/Extends/Format.antt =====
-- fathom/src/lang/core/binary/read.rs: every step of `read_format` extends the session.
use text.Mathlib.Text.{◌==◌ as str_eq}
use ddl.Prelude.{ℕ, zero, suc, String, Option, some, List, [], ◌∷◌}
use ddl.Runtime.Read.{IsBuffer}
use ddl.Core.Term.{FieldDeclaration, get_entry}
use ddl.Core.Locals.{Locals, level_to_index}
use ddl.Core.Locals
use ddl.Core.Semantics.Value.{
  Head, Value, FieldValues, Elims, ItemData, stuck, no_elims, more_elims, function, insert,
}
use ddl.Core.Semantics.Elimination.{Evaluator}
use ddl.Core.Semantics.Eval.{unwrap}
use ddl.Core.Binary.Session.{Context, Session, Parses, run}
use ddl.Core.Binary.Read.{
  read_global, take_elims, push_arguments, read_fields, read_struct_format, read_item_elims,
  read_value, read_format, read_local_found,
}
use ddl.Core.Binary.Extends.{
  Extends, Keeps, Extends-refl, Keeps-run, Keeps-bind, Keeps-map, Keeps-if,
}
use ddl.Core.Binary.Extends.Names.{
  Keeps-invalid, Keeps-read_name, Keeps-read_array, Keeps-read_link,
}

module _ (rf : Value → Parses Value) (k : (v : Value) → Keeps (rf v)) where
  Keeps-read_global : (name : String) (es : Elims) → Keeps (read_global rf name es)
  unfolding read_global
  Keeps-read_global name no_elims = Keeps-read_name name
  Keeps-read_global name (more_elims (function len) (more_elims (function elem_type) no_elims)) =
      Keeps-if (str_eq name "FormatArray") _ _ (Keeps-read_array (rf elem_type) len (k elem_type))
        Keeps-invalid
  Keeps-read_global name
        (more_elims
          (function base)
          (more_elims (function offset) (more_elims (function format) no_elims))) =
      Keeps-if (str_eq name "Link") _ _ (Keeps-read_link base offset format) Keeps-invalid
  Keeps-read_global name _ = Keeps-invalid

  Keeps-read_fields :
      (ev : Evaluator) (ds : List FieldDeclaration) (locals : Locals Value) (acc : FieldValues)
      → Keeps (read_fields ev rf ds locals acc)
  unfolding read_fields
  Keeps-read_fields ev [] locals acc = λ s b. Extends-refl s
  Keeps-read_fields ev (d ∷ ds) locals acc =
      Keeps-bind (run (ev locals d.type_)) _ (Keeps-run _) λ format.
        Keeps-bind (rf format) _ (k format)
          λ v. Keeps-read_fields ev ds (Locals.push locals v) (insert d.label v acc)

  Keeps-push_arguments : (es : Elims) (locals : Locals Value) → Keeps (push_arguments es locals)
  unfolding push_arguments
  Keeps-push_arguments no_elims locals = λ s b. Extends-refl s
  Keeps-push_arguments (more_elims (function v) es) locals =
      Keeps-push_arguments es (Locals.push locals v)
  Keeps-push_arguments (more_elims _ es) locals = λ s b. Extends-refl s

  pub Keeps-read_struct_format :
      (ev : Evaluator) (ds : List FieldDeclaration) (es : Elims)
      → Keeps (read_struct_format ev rf ds es)
  unfolding read_struct_format
  Keeps-read_struct_format ev ds es =
      Keeps-bind (push_arguments es Locals.new) _ (Keeps-push_arguments es Locals.new) λ locals.
        Keeps-map (read_fields ev rf ds locals FieldValues.no_fields) Value.struct_term
          (Keeps-read_fields ev ds locals FieldValues.no_fields)

  Keeps-take_elims : (n : ℕ) (es : Elims) → Keeps (take_elims n es)
  unfolding take_elims
  Keeps-take_elims zero es = λ s b. Extends-refl s
  Keeps-take_elims (suc n) no_elims = λ s b. Extends-refl s
  Keeps-take_elims (suc n) (more_elims e es) =
      Keeps-map (take_elims n es) (more_elims e) (Keeps-take_elims n es)

  Keeps-read_item_elims :
      (ev : Evaluator) (o : Option ItemData) (es : Elims) → Keeps (read_item_elims ev rf o es)
  unfolding read_item_elims
  Keeps-read_item_elims ev (some (ItemData.struct_format arity ds)) es =
      Keeps-bind (take_elims arity es) _ (Keeps-take_elims arity es)
        λ arguments. Keeps-read_struct_format ev ds arguments
  Keeps-read_item_elims ev _ es = Keeps-invalid

  Keeps-read_local_found : (o : Option Value) (es : Elims) → Keeps (read_local_found rf o es)
  Keeps-read_local_found (some v) no_elims = k v
  Keeps-read_local_found _ _ = Keeps-invalid

  Keeps-read_value : (ctx : Context) (ev : Evaluator) (v : Value) → Keeps (read_value ctx ev rf v)
  unfolding read_value
  Keeps-read_value ctx ev (stuck (Head.global name) es) = Keeps-read_global name es
  Keeps-read_value ctx ev (stuck (Head.item name) es) =
      Keeps-read_item_elims ev (get_entry ctx.items name) es
  Keeps-read_value ctx ev (stuck (Head.local level) es) =
      Keeps-bind (run (unwrap (level_to_index (Locals.size ctx.locals) level))) _ (Keeps-run _)
        λ index. Keeps-read_local_found (Locals.get ctx.locals index) es
  Keeps-read_value ctx ev _ = Keeps-invalid

Keeps-read_format : (fuel : ℕ) (ctx : Context) (v : Value) → Keeps (read_format fuel ctx v)
unfolding read_format
Keeps-read_format zero ctx v = λ s b. Extends-refl s
Keeps-read_format (suc fuel) ctx v =
    Keeps-read_value (read_format fuel ctx) (Keeps-read_format fuel ctx) ctx _ v

-- However the read of a format ends, over a buffer: the reader stays in its scope, has not gone back,
-- and is not past the end of the data if it was not before; and the queue has kept its links and
-- got new ones at its end, whose positions fit a `usize`.
pub read_format-Extends :
    (fuel : ℕ) (ctx : Context) (format : Value) (s : Session)
    → IsBuffer s.reader.scope.bytes
    → Extends s (read_format fuel ctx format s).1
read_format-Extends fuel ctx format s b = Keeps-read_format fuel ctx format s b
