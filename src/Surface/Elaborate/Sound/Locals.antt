-- ===== src/Surface/Elaborate/Sound/Locals.antt =====
-- fathom/src/pass/surface_to_core.rs: locals that are pushed and truncated, in the contexts of the
-- elaborator and of the core checker alike.
use mathlib.Core.Path.{subst}
use mathlib.Core.List.{append_assoc, append-nil}
use ddl.Prelude.{
  ℕ, ◌+◌, ◌<◌, String, List, [], ◌∷◌, ◌++◌, ◌≡◌, refl, sym, ap, ◌∙◌, length, take, take-append,
  length-append, arith,
}
use ddl.Outcome.{ok, ◌>>=◌}
use ddl.Outcome.Post.{Ends, Ends-bind}
use ddl.Core.Locals.{u32_end}
use ddl.Core.Locals
use ddl.Core.Semantics.Value.{Value, local_value}
use ddl.Core.Typing.Context as Checked
use ddl.Core.Typing.Derives.{Eventually}
use ddl.Surface.Distill.{Names}
use ddl.Surface.Elaborate.Message.{Message}
use ddl.Surface.Elaborate.Context.{Context, Elaborates, size, truncate_locals}
use ddl.Surface.Elaborate.Sound.{types_of, core_context, IsInSync, with_messages, Yields}

-- A method of the core checker ends, from some fuel on.
abbrev pub Runs :
    {A : Type 0} → (ℕ → Checked.Checks A) → Checked.Context → A → Checked.Context → Type 0
Runs m b a b' = Eventually λ k. m k b ≡ ok (a, b')

-- In the context `c` with any messages, the method ends with a value and a context that satisfy `Q`,
-- if it ends.
pub record Meets {A : Type 0} (c : Context) (Q : A × Context → Type 0) (m : Elaborates A)
    : Type 0 where
  pub apply : (ms : List Message) → Ends Q (m (with_messages c ms))

-- From what a method yields to the run of it and of the rest.
pub after :
    {A B : Type 0} {c : Context} {P : A → Type 0} {Q : B × Context → Type 0} {m : Elaborates A}
    {f : A → Elaborates B}
    → Yields c P m
    → ((a : A) → P a → Meets c Q (f a))
    → Meets c Q (λ d. m d >>= λ r. f r.0 r.1)
after {c} {Q} {f} h k = record {
  apply = λ ms.
      Ends-bind (h.apply ms)
        λ r p. subst (λ (d : Context). Ends Q (f r.0 d)) (sym p.1.1) ((k r.0 p.0).apply p.1.0);
}

abbrev pub grown : Context → List (String × Value) → List Value → Names → List Message → Context
grown c ds vs ns ms = record c {
  local_declarations = c.local_declarations ++ ds;
  local_definitions = record { entries = c.local_definitions.entries ++ vs };
  core_to_surface = ns;
  messages = ms;
}

-- The second context has `n` locals more.
abbrev pub GrowsBy : Context → ℕ → Context → Type 0
GrowsBy c n d =
    (ds : List (String × Value)) × (vs : List Value) × (ns : Names) × (ms : List Message) × (d
      ≡ grown c ds vs ns ms)
    × (length ds ≡ n)
    × (length vs ≡ n)

pub GrowsBy-refl :
    (c : Context) (ns : Names) (ms : List Message)
    → GrowsBy c 0 (record c { core_to_surface = ns; messages = ms })
GrowsBy-refl c ns ms = (
  [],
  [],
  ns,
  ms,
  rw (append-nil c.local_declarations, append-nil c.local_definitions.entries),
  refl,
  refl,
)

pub GrowsBy-trans :
    (c d e : Context) (n n' total : ℕ)
    → n + n' ≡ total
    → GrowsBy c n d
    → GrowsBy d n' e
    → GrowsBy c total e
GrowsBy-trans c d e n n' total sum (ds, vs, ns, ms, p, l, k) (ds', vs', ns', ms', p', l', k') = (
  ds ++ ds',
  vs ++ vs',
  ns',
  ms',
  p'
      ∙ rw p (
          rw (
            append_assoc c.local_declarations ds ds',
            append_assoc c.local_definitions.entries vs vs',
          )),
  omega (arith, length-append ds ds', l, l', sum),
  omega (arith, length-append vs vs', k, k', sum),
)

pub GrowsBy-IsInSync :
    (c d : Context) (n : ℕ)
    → IsInSync c
    → length c.local_declarations + n < u32_end
    → GrowsBy c n d
    → IsInSync d × (length d.local_declarations ≡ length c.local_declarations + n)
GrowsBy-IsInSync c d n (s, b) fits (ds, vs, ns, ms, p, l, k) =
    let long : length (c.local_declarations ++ ds) ≡ length c.local_declarations + n =
      length-append c.local_declarations ds ∙ ap (λ (x : ℕ). length c.local_declarations + x) l in
    subst
      (λ (x : Context).
        IsInSync x × (length x.local_declarations ≡ length c.local_declarations + n))
      (sym p)
      (
        (
          omega (arith, long, s, k, length-append c.local_definitions.entries vs),
          omega (arith, long, fits),
        ),
        long,
      )

-- A parameter that is pushed, as `push_local_param` does.
abbrev pub pushed : String → Value → Context → Context
pushed name v c =
    grown c ((name, v) ∷ []) (local_value (size c) ∷ []) (Locals.push c.core_to_surface name)
      c.messages

pub GrowsBy-pushed : (name : String) (v : Value) (c : Context) → GrowsBy c 1 (pushed name v c)
GrowsBy-pushed name v c =
    ((name, v) ∷ [], local_value (size c) ∷ [], _, c.messages, refl, refl, refl)

types_of-append : (xs ys : List (String × Value)) → types_of (xs ++ ys) ≡ types_of xs ++ types_of ys
types_of-append [] ys = refl
types_of-append ((n, t) ∷ xs) ys = ap (λ (ts : List Value). t ∷ ts) (types_of-append xs ys)

pub push-pushed :
    (name : String) (v : Value) (c : Context)
    → Checked.push_local_param v (core_context c)
      ≡ ok (local_value (size c), core_context (pushed name v c))
unfolding Checked.push_local_param Checked.push_local Locals.push
push-pushed name v c = rw (types_of-append c.local_declarations ((name, v) ∷ []))

length-types_of : (xs : List (String × Value)) → length (types_of xs) ≡ length xs
length-types_of [] = refl
length-types_of (x ∷ xs) = omega (arith, length-types_of xs)

module _ (c : Context) (synced : IsInSync c) where
  size-is : size c ≡ length c.local_declarations
  unfolding Locals.size
  size-is = omega (arith, synced.0, synced.1)

  restored :
      (ds : List (String × Value)) (vs : List Value)
      → (take (size c) (c.local_declarations ++ ds) ≡ c.local_declarations)
        × (take (size c) (c.local_definitions.entries ++ vs) ≡ c.local_definitions.entries)
  restored ds vs = (
    rw size-is (take-append c.local_declarations ds),
    rw (size-is, synced.0) (take-append c.local_definitions.entries vs),
  )

  truncated_lem :
      (ds : List (String × Value)) (vs : List Value) (ns : Names) (ms : List Message)
      → Checked.truncate_locals (size c) (core_context (grown c ds vs ns ms))
        ≡ ok (tt, core_context c)
  unfolding Checked.truncate_locals Locals.truncate
  truncated_lem ds vs ns ms = rw (
    types_of-append c.local_declarations ds,
    size-is,
    sym (length-types_of c.local_declarations),
    take-append (types_of c.local_declarations) (types_of ds),
    length-types_of c.local_declarations,
    synced.0,
    take-append c.local_definitions.entries vs,
  )

  -- The core checker truncates to the context from before.
  pub truncated :
      (d : Context) (n : ℕ)
      → GrowsBy c n d
      → Checked.truncate_locals (size c) (core_context d) ≡ ok (tt, core_context c)
  truncated d n (ds, vs, ns, ms, p, l, k) = rw p (truncated_lem ds vs ns ms)

  -- So does the elaborator, with the names for distillation and messages of its own.
  pub Ends-truncate :
      {A : Type 0} {Q : A × Context → Type 0} (f : Unit {0} → Elaborates A) (d : Context) (n : ℕ)
      → GrowsBy c n d
      → ((ns : Names) (ms : List Message)
          → Ends Q (f tt (record c { core_to_surface = ns; messages = ms })))
      → Ends Q (truncate_locals (size c) d >>= λ r. f r.0 r.1)
  unfolding truncate_locals Locals.truncate
  Ends-truncate {Q} f d n (ds, vs, ns, ms, p, l, k) h =
      let (e, e') = restored ds vs in
      subst (λ (x : Context). Ends Q (truncate_locals (size c) x >>= λ r. f r.0 r.1)) (sym p)
        (rw (e, e') (h _ ms))
