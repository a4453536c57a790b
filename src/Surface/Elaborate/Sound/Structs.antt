-- ===== src/Surface/Elaborate/Sound/Structs.antt =====
-- fathom/src/pass/surface_to_core.rs: the core checker accepts the structs that are elaborated.
use ddl.Prelude.{ℕ, ◌+◌, ◌<◌, List, [], ◌≡◌, refl, length, arith}
use ddl.Outcome.Post.{returns, Ends-bind}
use ddl.Core.Term as Core
use ddl.Core.Term.{Sort}
use ddl.Core.Locals.{u32_end}
use ddl.Core.Semantics.Value.{Value}
use ddl.Core.Typing.Judgements as Judged
use ddl.Core.Typing.Judgements.{Params}
use ddl.Core.Typing.Derives.{both}
use ddl.Surface.Term.{StructType}
use ddl.Surface.Elaborate.Context.{Context}
use ddl.Surface.Distill.{Names}
use ddl.Surface.Elaborate.Host.{Host}
use ddl.Surface.Elaborate.Message.{Message}
use ddl.Surface.Elaborate.Judgements.{elaborate_struct}
use ddl.Surface.Elaborate.Sound.{core_context, IsInSync, with_messages}
use ddl.Surface.Elaborate.Sound.Locals.{
  Runs, Meets, after, GrowsBy, GrowsBy-trans, GrowsBy-IsInSync, Ends-truncate, truncated,
}
use ddl.Surface.Elaborate.Sound.Params.{ParamsDirect, Yields-params, Meets-params, Yields-return}
use ddl.Surface.Elaborate.Sound.Fields.{FieldsDirect, Meets-declarations}

abbrev pub StructDirect : StructType → Type 0
StructDirect t = ParamsDirect t.params × FieldsDirect t.fields

-- The locals of a struct fit a `u32`.
abbrev pub StructFits : Context → StructType → Type 0
StructFits c t = length c.local_declarations + length t.params + length t.fields < u32_end

-- The core checker gives the struct the same type, and leaves its context as it was.
abbrev pub Checks :
    Value → (Value → Value) → Context → Params × List Core.FieldDeclaration × Value → Type 0
Checks expected host_type c (params, fields, v) =
    Runs (λ k. Judged.check_struct k expected host_type params fields) (core_context c) v
      (core_context c)

-- The names for distillation and the messages may differ.
abbrev pub Same : Context → Context → Type 0
Same c d =
    (ns : Names) × (ms : List Message) × (d ≡ record c { core_to_surface = ns; messages = ms })

-- The check of a struct, from its parts.
check_struct-runs :
    (expected : Value) (host_type : Value → Value) (ps : Params) (fs : List Core.FieldDeclaration)
    (v : Value) (c d e : Context) (n : ℕ)
    → IsInSync c
    → GrowsBy c n e
    → Runs (λ k. Judged.synth_params k ps) (core_context c) tt (core_context c)
    → Runs (λ k. Judged.push_params k ps) (core_context c) tt (core_context d)
    → Runs
        (λ k. Judged.check_declarations k expected host_type fs [])
        (core_context d)
        tt
        (core_context e)
    → Runs (λ k. Judged.return_type k ps expected) (core_context c) v (core_context c)
    → Checks expected host_type c (ps, fs, v)
unfolding Judged.check_struct
check_struct-runs expected host_type ps fs v c d e n s grows a b f r =
    let (m, h) = both a (both b (both f r)) in
    (
      m,
      λ k le.
          rw ((h k le).0, (h k le).1.0, (h k le).1.1.0, truncated c s e n grows) ((h k le).1.1.1),
    )

module _ (host : Host) (fuel : ℕ) where
  pub Meets-struct :
      (expected : Value) (host_type : Value → Value) (t : StructType) (c : Context)
      → IsInSync c
      → StructFits c t
      → StructDirect t
      → Meets c
          (λ r. Checks expected host_type c r.0 × Same c r.1)
          (elaborate_struct host fuel expected host_type t)
  unfolding elaborate_struct
  Meets-struct expected host_type t c s fits direct = record {
    apply = λ ms.
        let c' = with_messages c ms in
        (after (Yields-params host fuel c' t.params s direct.0) λ ps q. record {
          apply = λ ms0.
              let c0 = with_messages c ms0 in
              Ends-bind ((Meets-params host fuel ps c s (omega (arith, q.1, fits))).apply ms0)
                λ r p.
                  let (s', long) =
                    GrowsBy-IsInSync c0 r.1 (length ps) s (omega (arith, q.1, fits)) p.0 in
                  Ends-bind
                    ((Meets-declarations host fuel expected host_type t.fields [] [] r.1
                        (λ label. refl) s' (omega (arith, q.1, long, fits)) direct.1).apply
                      r.1.messages)
                    λ u d.
                      let grows = GrowsBy-trans c0 r.1 u.1 (length ps) d.0 _ refl p.0 d.2.0 in
                      Ends-truncate c0 s _ u.1 _ grows λ ns ms'.
                        Ends-bind
                          ((Yields-return host fuel (record c { core_to_surface = ns }) ps
                              expected).apply
                            ms')
                          λ w e. returns (
                            check_struct-runs expected host_type ps u.0 w.0 c0 r.1 u.1 _ s grows q.0
                                p.1 d.2.1 e.0,
                            (ns, e.1.0, e.1.1),
                          );
        }).apply
          ms;
  }
