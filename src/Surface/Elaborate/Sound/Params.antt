-- ===== src/Surface/Elaborate/Sound/Params.antt =====
-- fathom/src/pass/surface_to_core.rs: the core checker accepts the parameters that are
-- elaborated.
use ddl.Prelude.{
  ℕ, suc, ◌+◌, ◌<◌, String, List, [], ◌∷◌, Option, some, none, ◌≡◌, refl, ap, length, arith,
}
use ddl.Outcome.{ok}
use ddl.Outcome.Post.{returns, Ends-weaken}
use ddl.Core.Term.{Sort}
use ddl.Core.Locals.{u32_end}
use ddl.Core.Locals
use ddl.Core.Semantics.Value.{Value}
use ddl.Core.Typing.Context as Checked
use ddl.Core.Typing.Terms.{sort_of}
use ddl.Core.Typing.Judgements as Judged
use ddl.Core.Typing.Judgements.{Params}
use ddl.Core.Typing.Derives.{Eventually, both, HasType-error}
use ddl.Surface.Term.{Term}
use ddl.Surface.Elaborate.Context.{Context, push_local_param, push_local}
use ddl.Surface.Elaborate.Host.{Host}
use ddl.Surface.Elaborate.Synth.{Sorted}
use ddl.Surface.Elaborate.Judgements.{elaborate_params, push_params, return_type}
use ddl.Surface.Elaborate.Sound.{
  core_context, IsInSync, with_messages, Yields, Yields-pure, Yields-eval, ◌⇒◌,
}
use ddl.Surface.Elaborate.Sound.Direct.{IsDirect}
use ddl.Surface.Elaborate.Sound.Synth.{IsSorted}
use ddl.Surface.Elaborate.Sound.Terms.{Yields-is_type}
use ddl.Surface.Elaborate.Sound.Locals.{
  Runs, Meets, after, GrowsBy, GrowsBy-refl, GrowsBy-trans, GrowsBy-IsInSync, GrowsBy-pushed,
  pushed, push-pushed,
}

abbrev pub ParamsDirect : List (String × Term) → Type 0
ParamsDirect [] = Unit {0}
ParamsDirect ((_, t) ∷ rest) = IsDirect t × ParamsDirect rest

-- `synth_sort` of a term of a sort, or of an error.
synth_sort-runs :
    (c : Context) (r : Sorted)
    → IsSorted c r
    → Eventually (λ k.
      (s : Option Sort) × (Judged.synth_sort k r.0 (core_context c) ≡ ok (s, core_context c)))
unfolding Judged.synth_sort sort_of
synth_sort-runs c (t, some s) (n, h) = (n, λ k le. (some s, rw (h k le)))
synth_sort-runs c (t, none) e =
    let (n, h) = HasType-error {c = core_context c} in (n, λ k le. (none, rw (e, h k le)))

-- What the core checker does with the same arguments, while the locals grow.
abbrev pub Grows : (ℕ → Checked.Checks (Unit {0})) → Context → ℕ → Context → Type 0
Grows m c n d = GrowsBy c n d × Runs m (core_context c) tt (core_context d)

module _ (host : Host) (fuel : ℕ) where
  -- The parameters are types, and as many as in the surface syntax.
  abbrev pub Accepted : Context → List (String × Term) → Params → Type 0
  Accepted c ps qs =
      Runs (λ k. Judged.synth_params k qs) (core_context c) tt (core_context c)
      × (length qs ≡ length ps)

  pub Yields-params :
      (c : Context) (ps : List (String × Term))
      → IsInSync c
      → ParamsDirect ps
      → Yields c (Accepted c ps) (elaborate_params host fuel ps)
  unfolding elaborate_params Judged.synth_params
  Yields-params c [] s d = Yields-pure [] ((0, λ k le. refl), refl)
  Yields-params c ((name, t) ∷ ps) s d = Yields-is_type host c s fuel t d.0 ⇒ λ r h.
      Yields-params c ps s d.1 ⇒ λ qs q. Yields-pure _ (
        let (n, h') = both (synth_sort-runs c r h) q.0 in
            (n, λ k le. rw ((h' k le).0.1) ((h' k le).1)),
        ap suc q.1,
      )

  pub Meets-params :
      (ps : Params) (c : Context)
      → IsInSync c
      → length c.local_declarations + length ps < u32_end
      → Meets c
          (λ r. Grows (λ k. Judged.push_params k ps) c (length ps) r.1)
          (push_params host fuel ps)
  unfolding push_params push_local_param push_local Judged.push_params Checked.eval Locals.push
  Meets-params [] c s fits = record {
    apply = λ ms. returns (GrowsBy-refl c c.core_to_surface ms, (0, λ k le. refl));
  }
  Meets-params ((name, t) ∷ ps) c s fits = after (Yields-eval fuel t) λ v e. record {
    apply = λ ms.
        let c' = with_messages c ms in
        let d = pushed name v c' in
        let grows = GrowsBy-pushed name v c' in
        let (s', long) = GrowsBy-IsInSync c' d 1 s (omega (arith, fits)) grows in
        Ends-weaken
          (λ r p. (
            GrowsBy-trans c d r.1 1 (length ps) (suc (length ps)) (omega arith) grows p.0,
            let (n, h) = both e p.1 in
                (n, λ k le. rw ((h k le).0, push-pushed name v c') ((h k le).1)),
          ))
          ((Meets-params ps d s' (omega (arith, long, fits))).apply d.messages);
  }

  pub Yields-return :
      (c : Context) (ps : Params) (v : Value)
      → Yields c
          (λ w. Runs (λ k. Judged.return_type k ps v) (core_context c) w (core_context c))
          (return_type host fuel ps v)
  unfolding return_type Judged.return_type Checked.eval
  Yields-return c [] v = Yields-pure v (0, λ k le. refl)
  Yields-return c ((name, t) ∷ ps) v = Yields-return c ps v ⇒ λ w h. Yields-eval fuel t ⇒ λ x e.
      Yields-pure _ (let (n, k) = both h e in (n, λ m le. rw ((k m le).0, (k m le).1)))
