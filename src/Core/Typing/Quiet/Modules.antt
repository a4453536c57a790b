-- ===== src/Core/Typing/Quiet/Modules.antt =====
-- fathom/src/lang/core/typing.rs: `is_module` leaves the context as it was, but for messages.
use mathlib.Core.Path.{subst}
use mathlib.Core.List.{append-nil, append_assoc}
use ddl.Prelude.{
  ℕ, String, List, [], ◌∷◌, ◌++◌, ◌<◌, Option, some, none, ◌≡◌, refl, sym, ◌∙◌, length, take,
  take-append, arith,
}
use ddl.Outcome.{ok}
use ddl.Outcome.Post.{Ends, returns, Ends-bind, Ends-weaken, Ends-ok}
use ddl.Core.Term.{FieldDeclaration, Item, Module, get_entry}
use ddl.Core.Locals.{Locals, u32_end}
use ddl.Core.Locals
use ddl.Core.Semantics.Value.{Value, ItemData, Items}
use ddl.Core.Typing.Message.{CoreTypingMessage, item_redefinition}
use ddl.Core.Typing.Context.{Context, size, truncate_locals, push_message}
use ddl.Core.Typing.Judgements.{
  Params, return_type, check_struct, check_item, define_found, define_item, check_items,
  clear_items, is_module,
}
use ddl.Core.Typing.Quiet.{Appends, Appends-refl, Appends-trans, Quiet-eval}
use ddl.Core.Typing.Quiet.Check.{Quiet-synth_type}
use ddl.Core.Typing.Quiet.Grows.{
  extended, Grows, Grows-trans, Growing-Quiet, Growing-push_params, Growing-declarations,
  Quiet-synth_params, Quiet-return_type,
}

-- The types of the locals and their values have one size, which a `u32` can hold.
abbrev pub IsInSync : Context → Type 0
IsInSync c =
    (length c.local_declarations ≡ length c.local_definitions.entries)
    × (length c.local_definitions.entries < u32_end)

size-IsInSync : (c : Context) → IsInSync c → size c ≡ length c.local_definitions.entries
unfolding Locals.size
size-IsInSync c h = omega (arith, h)

truncated_lem :
    (c : Context) (n : ℕ) (types values : List Value) (more : List CoreTypingMessage)
    → length c.local_declarations ≡ n
    → length c.local_definitions.entries ≡ n
    → Ends (λ r. Appends c r.1) (truncate_locals n (extended c types values more))
unfolding truncate_locals Locals.truncate
truncated_lem c n types values more h k =
    let d : take n (c.local_declarations ++ types) ≡ c.local_declarations =
      rw (sym h) (take-append c.local_declarations types) in
    let e : take n (c.local_definitions.entries ++ values) ≡ c.local_definitions.entries =
      rw (sym k) (take-append c.local_definitions.entries values) in
    returns (more, rw (d, e))

module _ (fuel : ℕ) (expected : Value) (host : Value → Value) where
  truncate_locals-Grows :
      (c d : Context)
      → IsInSync c
      → Grows c d
      → Ends (λ r. Appends c r.1) (truncate_locals (size c) d)
  truncate_locals-Grows c d sync (types, values, more, e) =
      subst (λ (x : Context). Ends (λ r. Appends c r.1) (truncate_locals (size c) x)) (sym e)
        (truncated_lem c (size c) types values more (omega (arith, sync, size-IsInSync c sync))
          (sym (size-IsInSync c sync)))

  -- The type of a struct is built in the context from before its parameters were pushed.
  pub check_struct-return_type :
      {P : Value × Context → Type 0} (params : Params) (declarations : List FieldDeclaration)
      (c : Context)
      → IsInSync c
      → ((d : Context) → Appends c d → Ends P (return_type fuel params expected d))
      → Ends P (check_struct fuel expected host params declarations c)
  unfolding check_struct
  check_struct-return_type params declarations c sync h =
      Ends-bind ((Growing-Quiet (Quiet-synth_params fuel params)).apply c) λ r p.
        Ends-bind ((Growing-push_params fuel params).apply r.1) λ s q.
          Ends-bind ((Growing-declarations fuel expected host declarations []).apply s.1) λ t u.
            Ends-bind
              (truncate_locals-Grows c t.1 sync
                (Grows-trans c s.1 t.1 (Grows-trans c r.1 s.1 p q) u))
              λ v w. h v.1 w

  check_struct-Appends :
      (params : Params) (declarations : List FieldDeclaration) (c : Context)
      → IsInSync c
      → Ends (λ r. Appends c r.1) (check_struct fuel expected host params declarations c)
  check_struct-Appends params declarations c sync =
      check_struct-return_type params declarations c sync λ d p.
        Ends-weaken (λ q s. Appends-trans c d q.1 p s)
          ((Quiet-return_type fuel params expected).apply d)

check_item-Appends :
    (fuel : ℕ) (item : Item) (c : Context)
    → IsInSync c
    → Ends (λ r. Appends c r.1) (check_item fuel item c)
unfolding check_item
check_item-Appends fuel (Item.constant k) c sync =
    Ends-bind ((Quiet-synth_type fuel k.term).apply c) λ r p.
      Ends-bind ((Quiet-eval fuel k.term).apply r.1) λ s q. returns (Appends-trans c r.1 s.1 p q)
check_item-Appends fuel (Item.struct_type t) c sync =
    Ends-bind (check_struct-Appends _ _ _ t.params t.fields c sync) λ r p. returns p
check_item-Appends fuel (Item.struct_format t) c sync =
    Ends-bind (check_struct-Appends _ _ _ t.params t.fields c sync) λ r p. returns p

-- The context with other items and more messages.
abbrev Adds : Context → Context → Type 0
Adds c c' =
    (types : List (String × Value)) × (items : Items) × (more : List CoreTypingMessage) × (c'
      ≡ record c {
        item_declarations = types;
        item_definitions = items;
        messages = c.messages ++ more;
      })

Adds-trans : (c d e : Context) → Adds c d → Adds d e → Adds c e
Adds-trans c d e (ts, is, m, p) (ts', is', n, q) =
    (ts', is', m ++ n, q ∙ rw p (rw (append_assoc c.messages m n)))

Adds-Appends : (c d : Context) → Appends c d → Adds c d
Adds-Appends c d (more, e) = (c.item_declarations, c.item_definitions, more, e)

Adds-IsInSync : (c d : Context) → Adds c d → IsInSync c → IsInSync d
Adds-IsInSync c d (ts, is, m, e) sync = subst IsInSync (sym e) sync

Adds-found :
    (entry : String × ItemData × Value) (found : Option ItemData) (c : Context)
    → Ends (λ r. Adds c r.1) (define_found entry found c)
unfolding push_message
Adds-found (name, item, type') none c = returns (
  (name, type') ∷ c.item_declarations,
  (name, item) ∷ c.item_definitions,
  [],
  rw (append-nil c.messages),
)
Adds-found (name, item, type') (some _) c =
    returns (c.item_declarations, c.item_definitions, item_redefinition name ∷ [], refl)

check_items-Adds :
    (fuel : ℕ) (items : List Item) (c : Context)
    → IsInSync c
    → Ends (λ r. Adds c r.1) (check_items fuel items c)
unfolding check_items define_item
check_items-Adds fuel [] c sync = returns (Adds-Appends c c (Appends-refl c))
check_items-Adds fuel (item ∷ rest) c sync = Ends-bind (check_item-Appends fuel item c sync) λ r p.
    let p' = Adds-Appends c r.1 p in
    Ends-bind (Adds-found r.0 (get_entry r.1.item_definitions r.0.0) r.1) λ s q.
      let p'' = Adds-trans c r.1 s.1 p' q in
      Ends-weaken (λ t u. Adds-trans c s.1 t.1 p'' u)
        (check_items-Adds fuel rest s.1 (Adds-IsInSync c s.1 p'' sync))

module _ (fuel : ℕ) (m : Module) (c : Context) where
  is_module_lem :
      c.item_declarations ≡ []
      → c.item_definitions ≡ []
      → IsInSync c
      → Ends (λ r. Appends c r.1) (is_module fuel m c)
  unfolding is_module clear_items
  is_module_lem h k sync =
      Ends-bind (check_items-Adds fuel m.items c sync)
        λ r p. let (_, _, more, e) = p in returns (more, rw e (rw (h, k)))

  -- When the check of a module ends, in a context without items where the types and the values
  -- of the locals are of one size below 2 ^ 32, the context is as it was, but for messages at
  -- the end.
  pub is_module-Appends :
      (d : Context)
      → c.item_declarations ≡ []
      → c.item_definitions ≡ []
      → IsInSync c
      → is_module fuel m c ≡ ok (tt, d)
      → Appends c d
  is_module-Appends d h k sync e = Ends-ok (is_module_lem h k sync) e
