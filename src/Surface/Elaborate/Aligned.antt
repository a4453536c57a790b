-- ===== src/Surface/Elaborate/Aligned.antt =====
-- fathom/src/pass/surface_to_core.rs: the methods that change the locals keep their names together.
use ddl.Prelude.{
  ℕ, zero, suc, ◌+◌, ◌<◌, ◌≤◌, String, List, [], ◌∷◌, ◌++◌, ◌≡◌, refl, sym, ap, ◌∙◌, length,
  length-append, take, arith,
}
use ddl.Outcome.{ok}
use ddl.Core.Globals.{Globals}
use ddl.Core.Locals.{Locals, u32_end}
use ddl.Core.Locals
use ddl.Core.Semantics.Value.{Value}
use ddl.Surface.Elaborate.Context.{Context, new, push_local, truncate_locals}
use ddl.Surface.Elaborate.Names.{IsAligned, names_of}

names_of-append : (xs ys : List (String × Value)) → names_of (xs ++ ys) ≡ names_of xs ++ names_of ys
names_of-append [] ys = refl
names_of-append ((n, t) ∷ xs) ys = ap (λ (ns : List String). n ∷ ns) (names_of-append xs ys)

names_of-take : (n : ℕ) (xs : List (String × Value)) → names_of (take n xs) ≡ take n (names_of xs)
names_of-take zero xs = refl
names_of-take (suc n) [] = refl
names_of-take (suc n) ((x, t) ∷ xs) = ap (λ (ns : List String). x ∷ ns) (names_of-take n xs)

length-take_le : {A : Type 0} (n : ℕ) (xs : List A) → length (take n xs) ≤ length xs
length-take_le zero xs = omega arith
length-take_le (suc n) [] = omega arith
length-take_le (suc n) (x ∷ xs) = omega (arith, length-take_le n xs)

-- The names that distillation has of the locals are those under which they were declared, and
-- fewer than 2 ^ 32: in a new context; and, if they are so in a context, after a local is pushed,
-- where there is room for one more, and after locals are truncated.
pub IsAligned-methods :
    (globals : Globals) (c : Context) (name : String) (value type' : Value) (local_size : ℕ)
    → IsAligned c
    → length c.local_declarations + 1 < u32_end
    → IsAligned (new globals)
      × ((d : Context) × (push_local name value type' c ≡ ok (tt, d)) × IsAligned d)
      × ((d : Context) × (truncate_locals local_size c ≡ ok (tt, d)) × IsAligned d)
unfolding new push_local truncate_locals Locals.push Locals.truncate
IsAligned-methods globals c name value type' local_size aligned fits = (
  (refl, omega arith),
  (
    _,
    refl,
    (
      ap (λ (ns : List String). ns ++ (name ∷ [])) aligned.0
          ∙ sym (names_of-append c.local_declarations ((name, type') ∷ [])),
      omega (arith, length-append c.local_declarations ((name, type') ∷ [])),
    ),
  ),
  (
    _,
    refl,
    (
      ap (take local_size) aligned.0 ∙ sym (names_of-take local_size c.local_declarations),
      omega (arith, length-take_le local_size c.local_declarations),
    ),
  ),
)
