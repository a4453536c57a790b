-- ===== src/Core/Typing/Quiet/Grows.antt =====
-- fathom/src/lang/core/typing.rs: methods that push locals, and add messages.
use mathlib.Core.List.{append-nil, append_assoc}
use ddl.Prelude.{ℕ, String, List, [], ◌∷◌, ◌++◌, Bool, true, false, ◌≡◌, sym, ap, ◌∙◌}
use ddl.Outcome.{Outcome, ok}
use ddl.Outcome.Post.{Ends, returns, Ends-bind, Ends-weaken}
use ddl.Core.Term.{FieldDeclaration}
use ddl.Core.Locals.{Locals, u32_end}
use ddl.Core.Locals
use ddl.Core.Semantics.Value.{Value, local_value}
use ddl.Core.Typing.Message.{CoreTypingMessage}
use ddl.Core.Typing.Context.{Context, Checks, size, push_local, push_local_param}
use ddl.Core.Typing.Judgements.{
  Params, synth_params, push_params, is_seen, declare_field, check_declarations, return_type,
}
use ddl.Core.Typing.Quiet.{
  Appends, Appends-refl, Quiet, Quiet-pure, ◌⟫◌, Quiet-push_message, Quiet-eval,
}
use ddl.Core.Typing.Quiet.Check.{Quiet-check_type, Quiet-synth_sort}

-- The locals of the context, with others at the end, and more messages.
abbrev pub extended : Context → List Value → List Value → List CoreTypingMessage → Context
extended c types values more = record c {
  local_declarations = c.local_declarations ++ types;
  local_definitions = record { entries = c.local_definitions.entries ++ values };
  messages = c.messages ++ more;
}

abbrev pub Grows : Context → Context → Type 0
Grows c c' =
    (types values : List Value) × (more : List CoreTypingMessage) × (c'
      ≡ extended c types values more)

pub Grows-Appends : (c c' : Context) → Appends c c' → Grows c c'
Grows-Appends c c' (more, e) =
    ([], [], more, e ∙ rw (append-nil c.local_declarations, append-nil c.local_definitions.entries))

pub Grows-trans : (c d e : Context) → Grows c d → Grows d e → Grows c e
Grows-trans c d e (ts, vs, ms, p) (ts', vs', ms', q) = (
  ts ++ ts',
  vs ++ vs',
  ms ++ ms',
  q
      ∙ rw p (
          rw (
            append_assoc c.local_declarations ts ts',
            append_assoc c.local_definitions.entries vs vs',
            append_assoc c.messages ms ms',
          )),
)

Grows-refl : (c : Context) → Grows c c
Grows-refl c = Grows-Appends c c (Appends-refl c)

pub record Growing {A : Type 0} (m : Checks A) : Type 0 where
  pub apply : (c : Context) → Ends (λ r. Grows c r.1) (m c)

pub Growing-Quiet : {A : Type 0} {m : Checks A} → Quiet m → Growing m
Growing-Quiet h = record { apply = λ c. Ends-weaken (λ r. Grows-Appends c r.1) (h.apply c) }

infixl 1 ◌⟫⟫◌
pub ◌⟫⟫◌ :
    {A B : Type 0} {m : Checks A} {f : A → Checks B}
    → Growing m
    → ((a : A) → Growing (f a))
    → Growing (λ c. ddl.Outcome.◌>>=◌ (m c) λ r. f r.0 r.1)
h ⟫⟫ k = record {
  apply = λ c.
      Ends-bind (h.apply c)
        λ r p. Ends-weaken (λ q s. Grows-trans c r.1 q.1 p s) ((k r.0).apply r.1);
}

Growing-push : (v : Value) → Growing (push_local_param v)
unfolding push_local_param push_local Locals.push
Growing-push v = record {
  apply = λ c. returns (
    v ∷ [],
    local_value (size c) ∷ [],
    [],
    ap
        (λ (ms : List CoreTypingMessage). record c {
          local_declarations = c.local_declarations ++ (v ∷ []);
          local_definitions = record {
            entries = c.local_definitions.entries ++ (local_value (size c) ∷ []);
          };
          messages = ms;
        })
        (sym (append-nil c.messages)),
  );
}

Growing-pure : Growing {A = Unit {0}} (λ c. ok (tt, c))
Growing-pure = Growing-Quiet (Quiet-pure tt)

pub Quiet-synth_params : (fuel : ℕ) (params : Params) → Quiet (synth_params fuel params)
unfolding synth_params
Quiet-synth_params fuel [] = Quiet-pure tt
Quiet-synth_params fuel ((_, t) ∷ params) =
    Quiet-synth_sort fuel t ⟫ λ _. Quiet-synth_params fuel params

pub Growing-push_params : (fuel : ℕ) (params : Params) → Growing (push_params fuel params)
unfolding push_params
Growing-push_params fuel [] = Growing-pure
Growing-push_params fuel ((_, t) ∷ params) =
    Growing-Quiet (Quiet-eval fuel t) ⟫⟫ λ v. Growing-push v ⟫⟫ λ _. Growing-push_params fuel params

Growing-declare : (label : String) (v : Value) (b : Bool) → Growing (declare_field label v b)
Growing-declare label v true = Growing-Quiet (Quiet-push_message _)
Growing-declare label v false = Growing-push v ⟫⟫ λ _. Growing-pure

pub Growing-declarations :
    (fuel : ℕ) (expected : Value) (host : Value → Value) (ds : List FieldDeclaration)
    (seen : List String)
    → Growing (check_declarations fuel expected host ds seen)
unfolding check_declarations
Growing-declarations fuel expected host [] seen = Growing-pure
Growing-declarations fuel expected host (d ∷ rest) seen =
    Growing-Quiet (Quiet-check_type fuel d.type_ expected) ⟫⟫ λ _.
    Growing-Quiet (Quiet-eval fuel d.type_) ⟫⟫ λ v.
    Growing-declare d.label (host v) (is_seen d.label seen) ⟫⟫ λ _.
    Growing-declarations fuel expected host rest (d.label ∷ seen)

pub Quiet-return_type : (fuel : ℕ) (params : Params) (v : Value) → Quiet (return_type fuel params v)
unfolding return_type
Quiet-return_type fuel [] v = Quiet-pure v
Quiet-return_type fuel ((_, t) ∷ params) v =
    Quiet-return_type fuel params v ⟫ λ w. Quiet-eval fuel t ⟫ λ u. Quiet-pure _
