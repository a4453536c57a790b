-- ===== src/Core/Binary/Layout/Typed.antt =====
-- fathom/src/lang/core/binary/read.rs: a value that is read has the type that `repr` gives.
use mathlib.Core.Path.{subst}
use ddl.Prelude.{ℕ, zero, suc, ◌≡◌, refl, sym, ◌<◌, some, arith}
use ddl.Prelude.Int.{ℤ, pos}
use ddl.Outcome.{Outcome, ok, err, panic, timeout}
use ddl.Runtime.Read.{ReadError, usize_end}
use ddl.Runtime.UInt.{UInt, u8}
use ddl.Runtime.Number.{
  SInt, i8, Float, f32_le, f32_be, f64_le, f64_be, FloatBits, read_float, read_int,
}
use ddl.Runtime.UInt.{read}
use ddl.Core.Semantics.Value.{
  Head, Value, Values, stuck, no_elims, more_elims, function, global_value, no_values, more_values,
}
use ddl.Core.Semantics.Elimination.{repr, repr_name}
use ddl.Core.Binary.Session.{Context, Session, Parses, after, ◌>>=◌, pure, on_reader}
use ddl.Core.Binary.Read.{
  int_value, f32_value, f64_value, read_elems, read_array, read_array_of, read_global, read_name,
  read_value, read_format, to_usize,
}
use ddl.Core.Binary.Layout.{
  Layout, uint, int, float, array, HasLengths, to_format, uint_name, int_name, float_name,
}

-- The values of the host types of formats of a fixed size.
mutual
  pub data OfType : Value → Value → Type 0 where
    an_int : (z : ℤ) → OfType (global_value "Int") (int_value z)
    an_f32 : (x : FloatBits) → OfType (global_value "F32") (f32_value x)
    an_f64 : (x : FloatBits) → OfType (global_value "F64") (f64_value x)
    an_array :
        (n : ℕ) (type' : Value) (vs : Values)
        → AllOfType type' n vs
        → OfType
            (stuck
              (Head.global "Array")
              (more_elims (function (int_value (pos n))) (more_elims (function type') no_elims)))
            (Value.array_term vs)

  -- As many values of the type as the number says.
  pub data AllOfType : Value → ℕ → Values → Type 0 where
    all_nil : (type' : Value) → AllOfType type' zero no_values
    all_cons :
        (type' : Value) (n : ℕ) (v : Value) (vs : Values)
        → OfType type' v
        → AllOfType type' n vs
        → AllOfType type' (suc n) (more_values v vs)

-- Every value that the parse gives satisfies `P`.
abbrev Gives : {A : Type 0} → (A → Type 0) → Parses A → Type 0
Gives {A} P m = (s s' : Session) (a : A) → m s ≡ (ok a, s') → P a

ok-injective :
    {A : Type 0} (a b : A) (s t : Session)
    → Path (Outcome ReadError A × Session) (ok a, s) (ok b, t)
    → a ≡ b
ok-injective a b s t e = cc

Gives-pure : {A : Type 0} (P : A → Type 0) (a : A) → P a → Gives P (pure a)
Gives-pure P a h s s' b e = subst P (ok-injective a b s s' e) h

module _ {A B : Type 0} (P : A → Type 0) (Q : B → Type 0) (f : A → Parses B) where
  Gives-after :
      (p : Outcome ReadError A × Session) (s' : Session) (b : B)
      → ((a : A) (t : Session) → p ≡ (ok a, t) → P a)
      → ((a : A) → P a → Gives Q (f a))
      → after p f ≡ (ok b, s')
      → Q b
  Gives-after (ok a, t) s' b h k e = k a (h a t refl) t s' b e
  Gives-after (err x, t) s' b h k e = cc
  Gives-after (panic x, t) s' b h k e = cc
  Gives-after (timeout, t) s' b h k e = cc

  Gives-bind : (m : Parses A) → Gives P m → ((a : A) → P a → Gives Q (f a)) → Gives Q (m >>= f)
  Gives-bind m h k s s' b e = Gives-after (m s) s' b (λ a t q. h s t a q) k e

-- What is read is put into a value of the type.
Gives-map :
    {A : Type 0} (m : Parses A) (f : A → Value) (type' : Value)
    → ((a : A) → OfType type' (f a))
    → Gives (OfType type') (m >>= λ a. pure (f a))
Gives-map {A} m f type' h =
    Gives-bind (λ (a : A). Unit {0}) (OfType type') (λ a. pure (f a)) m (λ s s' a e. tt)
      (λ a _. Gives-pure (OfType type') (f a) (h a))

Gives-elems :
    (m : Parses Value) (type' : Value) (n : ℕ)
    → Gives (OfType type') m
    → Gives (AllOfType type' n) (read_elems m n)
unfolding read_elems
Gives-elems m type' zero h = Gives-pure (AllOfType type' zero) no_values (all_nil type')
Gives-elems m type' (suc n) h = Gives-bind (OfType type') (AllOfType type' (suc n)) _ m h λ v t.
    Gives-bind (AllOfType type' n) (AllOfType type' (suc n)) _ (read_elems m n)
      (Gives-elems m type' n h)
      λ vs ts. Gives-pure (AllOfType type' (suc n)) (more_values v vs) (all_cons type' n v vs t ts)

-- Formats of one kind of number, each read as its host type.
Gives-uint :
    (u : UInt) → Gives (OfType (repr (global_value (uint_name u)))) (read_name (uint_name u))
unfolding repr repr_name read_name
Gives-uint u8 = Gives-map (on_reader (read u8)) _ _ (λ n. an_int (pos n))
Gives-uint u = Gives-map (on_reader (read u)) _ _ (λ n. an_int (pos n))

Gives-int : (i : SInt) → Gives (OfType (repr (global_value (int_name i)))) (read_name (int_name i))
unfolding repr repr_name read_name
Gives-int i8 = Gives-map (on_reader (read_int i8)) _ _ an_int
Gives-int i = Gives-map (on_reader (read_int i)) _ _ an_int

Gives-float :
    (f : Float) → Gives (OfType (repr (global_value (float_name f)))) (read_name (float_name f))
unfolding repr repr_name read_name
Gives-float f32_le = Gives-map (on_reader (read_float f32_le)) _ _ an_f32
Gives-float f32_be = Gives-map (on_reader (read_float f32_be)) _ _ an_f32
Gives-float f64_le = Gives-map (on_reader (read_float f64_le)) _ _ an_f64
Gives-float f64_be = Gives-map (on_reader (read_float f64_be)) _ _ an_f64

abbrev array_type : ℕ → Value → Value
array_type n type' =
    stuck (Head.global "Array")
      (more_elims (function (int_value (pos n))) (more_elims (function type') no_elims))

Gives-array :
    (m : Parses Value) (type' : Value) (n : ℕ)
    → n < usize_end
    → Gives (OfType type') m
    → Gives (OfType (array_type n type')) (read_array m (int_value (pos n)))
unfolding read_array
Gives-array m type' n h k =
    let fits : to_usize (pos n) ≡ some n = ground arith in
    subst (λ o. Gives (OfType (array_type n type')) (read_array_of m o)) (sym fits)
      (Gives-bind (AllOfType type' n) (OfType (array_type n type')) _ (read_elems m n)
        (Gives-elems m type' n k)
        λ vs ts.
          Gives-pure (OfType (array_type n type')) (Value.array_term vs) (an_array n type' vs ts))

Gives-read_format :
    (l : Layout) (fuel : ℕ) (ctx : Context)
    → HasLengths l
    → Gives (OfType (repr (to_format l))) (read_format fuel ctx (to_format l))
unfolding read_format read_value read_global repr
Gives-read_format l zero ctx h = λ s s' v e. cc
Gives-read_format (array n l) (suc fuel) ctx h =
    Gives-array (read_format fuel ctx (to_format l)) (repr (to_format l)) n h.0
      (Gives-read_format l fuel ctx h.1)
Gives-read_format (uint u) (suc fuel) ctx h = Gives-uint u
Gives-read_format (int i) (suc fuel) ctx h = Gives-int i
Gives-read_format (float f) (suc fuel) ctx h = Gives-float f

-- Where a format of a fixed size, whose array lengths fit a `usize`, is read, the value has the type
-- that `repr` gives for the format: an integer, a float of the width, or an array with as many items
-- as the type says.
pub read_format-OfType :
    (fuel : ℕ) (ctx : Context) (l : Layout) (s s' : Session) (v : Value)
    → HasLengths l
    → read_format fuel ctx (to_format l) s ≡ (ok v, s')
    → OfType (repr (to_format l)) v
read_format-OfType fuel ctx l s s' v h e = Gives-read_format l fuel ctx h s s' v e
