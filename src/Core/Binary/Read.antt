-- ===== src/Core/Binary/Read.antt =====
-- fathom/src/lang/core/binary/read.rs: `read_format` and `read_struct_format`.
use text.Mathlib.Text.{◌==◌ as str_eq}
use ddl.Prelude.{ℕ, zero, suc, String, List, [], ◌∷◌, ◌++◌, Option, none, some, ltb, if◌then◌else◌}
use ddl.Prelude.Int.{ℤ, pos, negsuc, ◌+ℤ◌}
use ddl.Outcome.{ok, timeout, out_of_bounds, explicit_panic}
use ddl.Runtime.Read.{overflowing_position, usize_end, current_pos}
use ddl.Runtime.UInt.{UInt, u8, u16_le, u16_be, u32_le, u32_be, u64_le, u64_be, read}
use ddl.Runtime.Number.{
  SInt, i8, i16_le, i16_be, i32_le, i32_be, i64_le, i64_be, read_int, Float, f32_le, f32_be, f64_le,
  f64_be, read_float, FloatBits,
}
use ddl.Core.Term.{Primitive, FieldDeclaration, get_entry}
use ddl.Core.Locals.{Locals, level_to_index}
use ddl.Core.Locals
use ddl.Core.Semantics.Value.{
  Head, Value, Values, FieldValues, Elims, ItemData, stuck, no_elims, more_elims, function,
  no_values, more_values, insert,
}
use ddl.Core.Semantics.Elimination.{Evaluator}
use ddl.Core.Semantics.Eval.{eval, unwrap}
use ddl.Core.Binary.Session.{Context, Parses, ◌>>=◌, pure, fail, invalid, abort, run, on_reader}

-- `Value::int`, `Value::f32`, `Value::f64` and `Value::pos`.
abbrev pub int_value : ℤ → Value
int_value z = Value.primitive (Primitive.int z)

abbrev pub f32_value : FloatBits → Value
f32_value x = Value.primitive (Primitive.f32 x)

abbrev pub f64_value : FloatBits → Value
f64_value x = Value.primitive (Primitive.f64 x)

abbrev pub pos_value : ℕ → Value
pos_value n = Value.primitive (Primitive.pos n)

abbrev pub read_uint_value : UInt → Parses Value
read_uint_value u = do n ← on_reader (read u); pure (int_value (pos n))

abbrev pub read_int_value : SInt → Parses Value
read_int_value i = do z ← on_reader (read_int i); pure (int_value z)

abbrev pub read_f32_value : Float → Parses Value
read_f32_value f = do x ← on_reader (read_float f); pure (f32_value x)

abbrev pub read_f64_value : Float → Parses Value
read_f64_value f = do x ← on_reader (read_float f); pure (f64_value x)

abbrev pub pos_or_overflow : Option ℕ → Parses Value
pos_or_overflow (some offset) = pure (pos_value offset)
pos_or_overflow none = fail overflowing_position

unfoldable pub read_current_pos : Parses Value
unfolding current_pos
read_current_pos s = pos_or_overflow (current_pos s.reader) s

-- The arms of `read_format` for a stuck global without arguments.
unfoldable pub read_name : String → Parses Value
read_name name =
    if str_eq name "U8"
    then read_uint_value u8
    else if str_eq name "U16Le"
    then read_uint_value u16_le
    else if str_eq name "U16Be"
    then read_uint_value u16_be
    else if str_eq name "U32Le"
    then read_uint_value u32_le
    else if str_eq name "U32Be"
    then read_uint_value u32_be
    else if str_eq name "U64Le"
    then read_uint_value u64_le
    else if str_eq name "U64Be"
    then read_uint_value u64_be
    else if str_eq name "S8"
    then read_int_value i8
    else if str_eq name "S16Le"
    then read_int_value i16_le
    else if str_eq name "S16Be"
    then read_int_value i16_be
    else if str_eq name "S32Le"
    then read_int_value i32_le
    else if str_eq name "S32Be"
    then read_int_value i32_be
    else if str_eq name "S64Le"
    then read_int_value i64_le
    else if str_eq name "S64Be"
    then read_int_value i64_be
    else if str_eq name "F32Le"
    then read_f32_value f32_le
    else if str_eq name "F32Be"
    then read_f32_value f32_be
    else if str_eq name "F64Le"
    then read_f64_value f64_le
    else if str_eq name "F64Be"
    then read_f64_value f64_be
    else if str_eq name "CurrentPos"
    then read_current_pos
    else invalid

-- `BigInt::to_usize`
abbrev pub to_usize : ℤ → Option ℕ
to_usize (pos n) = if ltb n usize_end then some n else none
to_usize (negsuc n) = none

-- The items of an array, read one after the other.
unfoldable pub read_elems : Parses Value → ℕ → Parses Values
read_elems read_elem zero = pure no_values
read_elems read_elem (suc n) = do
  value ← read_elem
  values ← read_elems read_elem n
  pure (more_values value values)

abbrev pub read_array_of : Parses Value → Option ℕ → Parses Value
read_array_of read_elem none = invalid
read_array_of read_elem (some len) = do
  values ← read_elems read_elem len
  pure (Value.array_term values)

unfoldable pub read_array : Parses Value → Value → Parses Value
unfolding read_elems
read_array read_elem (Value.primitive (Primitive.int len)) = read_array_of read_elem (to_usize len)
read_array read_elem _ = invalid

abbrev pub link_at : Value → Option ℕ → Parses Value
link_at format none s = fail overflowing_position s
link_at format (some position) s = (
  ok (pos_value position),
  record s { pending_links = s.pending_links ++ ((position, format) ∷ []) },
)

unfoldable pub read_link : Value → Value → Value → Parses Value
unfolding ◌+ℤ◌
read_link (Value.primitive (Primitive.pos base)) (Value.primitive (Primitive.int offset)) format =
    link_at format (to_usize (offset +ℤ pos base))
read_link _ _ format = invalid

-- The arms of `read_format` for a stuck global. `read_format` is the recursive call.
unfoldable pub read_global : (Value → Parses Value) → String → Elims → Parses Value
read_global read_format name no_elims = read_name name
read_global read_format name
      (more_elims (function len) (more_elims (function elem_type) no_elims)) =
    if str_eq name "FormatArray" then read_array (read_format elem_type) len else invalid
read_global read_format name
      (more_elims
        (function base)
        (more_elims (function offset) (more_elims (function format) no_elims))) =
    if str_eq name "Link" then read_link base offset format else invalid
read_global read_format name _ = invalid

-- `&elims[..arity]` panics if there are fewer.
unfoldable pub take_elims : ℕ → Elims → Parses Elims
take_elims zero elims = pure no_elims
take_elims (suc arity) no_elims = abort out_of_bounds
take_elims (suc arity) (more_elims elim' rest) = do
  elims ← take_elims arity rest
  pure (more_elims elim' elims)

-- The arguments of the struct, pushed onto its local environment.
unfoldable pub push_arguments : Elims → Locals Value → Parses (Locals Value)
push_arguments no_elims locals = pure locals
push_arguments (more_elims (function value) rest) locals =
    push_arguments rest (Locals.push locals value)
push_arguments (more_elims _ rest) locals = abort explicit_panic

-- The loop over the fields: each format is evaluated with the values read before it.
unfoldable pub read_fields :
    Evaluator
    → (Value → Parses Value)
    → List FieldDeclaration
    → Locals Value
    → FieldValues
    → Parses FieldValues
read_fields eval read_format [] format_locals fields = pure fields
read_fields eval read_format (declaration ∷ rest) format_locals fields = do
  format ← run (eval format_locals declaration.type_)
  value ← read_format format
  read_fields eval read_format rest (Locals.push format_locals value)
      (insert declaration.label value fields)

unfoldable pub read_struct_format :
    Evaluator → (Value → Parses Value) → List FieldDeclaration → Elims → Parses Value
unfolding push_arguments
read_struct_format eval read_format field_declarations elims = do
  format_locals ← push_arguments elims Locals.new
  fields ← read_fields eval read_format field_declarations format_locals FieldValues.no_fields
  pure (Value.struct_term fields)

-- The arms of `read_format` for a stuck item.
unfoldable pub read_item_elims :
    Evaluator → (Value → Parses Value) → Option ItemData → Elims → Parses Value
read_item_elims eval read_format (some (ItemData.struct_format arity field_declarations)) elims = do
  arguments ← take_elims arity elims
  read_struct_format eval read_format field_declarations arguments
read_item_elims eval read_format _ elims = invalid

abbrev pub read_local_found : (Value → Parses Value) → Option Value → Elims → Parses Value
read_local_found read_format (some value) no_elims = read_format value
read_local_found read_format _ _ = invalid

-- The body of `read_format`, over the functions that it calls.
unfoldable pub read_value : Context → Evaluator → (Value → Parses Value) → Value → Parses Value
unfolding read_global
read_value ctx eval read_format (stuck (Head.global name) elims) =
    read_global read_format name elims
read_value ctx eval read_format (stuck (Head.item item_name) elims) =
    read_item_elims eval read_format (get_entry ctx.items item_name) elims
read_value ctx eval read_format (stuck (Head.local level) elims) = do
  index ← run (unwrap (level_to_index (Locals.size ctx.locals) level))
  read_local_found read_format (Locals.get ctx.locals index) elims
read_value ctx eval read_format _ = invalid

-- Each call of `read_format` spends one unit of fuel, which it shares with `eval`.
unfoldable pub read_format : ℕ → Context → Value → Parses Value
read_format zero ctx format s = (timeout, s)
read_format (suc fuel) ctx format s =
    read_value ctx (eval fuel ctx.globals ctx.items) (read_format fuel ctx) format s
