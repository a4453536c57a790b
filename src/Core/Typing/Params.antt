-- ===== src/Core/Typing/Params.antt =====
-- fathom/src/lang/core/typing.rs: structs with a parameter whose type names a parameter before it.
use mathlib.Core.Path.{subst}
use ddl.Prelude.{
  ℕ, zero, suc, String, List, [], ◌∷◌, ◌++◌, ◌≤◌, ◌<◌, ◌≡◌, ◌≢◌, sym, ap, length, arith,
}
use ddl.Outcome.{ok, panic, unwrap_none}
use ddl.Outcome.Post.{Ends, panics, expires, Ends-bind, Ends-ok}
use ddl.Core.Term.{Term, FieldDeclaration}
use ddl.Core.Locals.{u32_end}
use ddl.Core.Semantics.Value.{Value}
use ddl.Core.Semantics.Eval
use ddl.Core.Semantics.Eval.Total.{eval-local_unbound}
use ddl.Core.Typing.Context.{Context, eval}
use ddl.Core.Typing.Judgements.{Params, return_type, check_struct}
use ddl.Core.Typing.Quiet.{Appends, Appends-trans}
use ddl.Core.Typing.Quiet.Grows.{Quiet-return_type}
use ddl.Core.Typing.Quiet.Modules.{check_struct-return_type}

module _ (index : ℕ) (c : Context) (fits : length c.local_definitions.entries < u32_end)
    (unbound : length c.local_definitions.entries ≤ index) where
  eval-never :
      (fuel : ℕ) (d : Context) → Appends c d → Ends (λ _. ⊥) (eval fuel (Term.local index) d)
  unfolding eval Eval.eval
  eval-never zero d (more, e) = expires
  eval-never (suc fuel) d (more, e) =
      let same = ap (λ (x : Context). length x.local_definitions.entries) e in
      let stuck =
        eval-local_unbound d.globals d.item_definitions d.local_definitions fuel index
          (omega (arith, same, fits)) (omega (arith, same, unbound)) in
      subst (Ends (λ _. ⊥)) (sym (ap (λ m. ddl.Outcome.◌>>=◌ m λ a. ok (a, d)) stuck)) panics

  return_type-never :
      (fuel : ℕ) (before after : Params) (name : String) (v : Value) (d : Context)
      → Appends c d
      → Ends (λ _. ⊥) (return_type fuel (before ++ ((name, Term.local index) ∷ after)) v d)
  unfolding return_type
  return_type-never fuel [] after name v d p =
      Ends-bind ((Quiet-return_type fuel after v).apply d)
        λ r q. Ends-bind (eval-never fuel r.1 (Appends-trans c d r.1 p q)) λ _ e. absurd e
  return_type-never fuel ((_, t) ∷ before) after name v d p =
      Ends-bind (return_type-never fuel before after name v d p) λ _ e. absurd e

  -- In a context whose locals have as many types as values, which a `u32` can hold: the check
  -- of a struct never returns, if a parameter has a type that is a local outside the context,
  -- as the type of a second parameter is if it names the first. It panics or runs out of fuel,
  -- whatever message was left.
  pub check_struct-local_param :
      (fuel : ℕ) (expected : Value) (host : Value → Value) (before after : Params) (name : String)
      (declarations : List FieldDeclaration) (r : Value × Context)
      → length c.local_declarations ≡ length c.local_definitions.entries
      → check_struct fuel expected host
          (before ++ ((name, Term.local index) ∷ after))
          declarations
          c
        ≢ ok r
  check_struct-local_param fuel expected host before after name declarations r sync e =
      Ends-ok
        (check_struct-return_type fuel expected host (before ++ ((name, Term.local index) ∷ after))
          declarations c (sync, fits) λ d p. return_type-never fuel before after name expected d p)
        e
