-- ===== src/Surface/Elaborate/Sound/Fields.antt =====
-- fathom/src/pass/surface_to_core.rs: the core checker accepts the field declarations that are
-- elaborated.
use text.Mathlib.Text.{◌==◌ as str_eq}
use text.Mathlib.TextEquality.{eq_iff}
use ddl.Prelude.{
  ℕ, suc, ◌+◌, ◌<◌, ◌≤◌, String, List, [], ◌∷◌, true, false, Bool-cases, inl, inr, ◌≡◌, refl, sym,
  ap, ◌∙◌, length, arith,
}
use ddl.Outcome.Post.{Ends, returns, Ends-bind}
use ddl.Core.Term as Core
use ddl.Core.Term.{Sort}
use ddl.Core.Locals.{u32_end}
use ddl.Core.Locals
use ddl.Core.Semantics.Value.{Value}
use ddl.Core.Typing.Context as Checked
use ddl.Core.Typing.Judgements as Judged
use ddl.Core.Typing.Judgements.{Params}
use ddl.Core.Typing.Derives.{both, EvaluatesTo}
use ddl.Surface.Term.{FieldDeclaration}
use ddl.Surface.Elaborate.Context.{Context, push_message, push_local_param, push_local}
use ddl.Surface.Elaborate.Host.{Host}
use ddl.Surface.Elaborate.Message.{Message}
use ddl.Surface.Elaborate.Judgements.{is_seen, declare_field, elaborate_declarations}
use ddl.Surface.Elaborate.Sound.{core_context, IsInSync, with_messages, Yields-eval}
use ddl.Surface.Elaborate.Sound.Direct.{IsDirect}
use ddl.Surface.Elaborate.Sound.Terms.{Yields-check_type}
use ddl.Surface.Elaborate.Sound.Locals.{
  Meets, after, GrowsBy-refl, GrowsBy-trans, GrowsBy-IsInSync, GrowsBy-pushed, pushed, push-pushed,
}
use ddl.Surface.Elaborate.Sound.Params.{Grows}

abbrev pub FieldsDirect : List FieldDeclaration → Type 0
FieldsDirect [] = Unit {0}
FieldsDirect (d ∷ rest) = IsDirect d.type_ × FieldsDirect rest

module _ (host : Host) (fuel : ℕ) where
  -- A label was seen by the elaborator exactly if the core checker saw it.
  abbrev pub SameSeen : List String → List String → Type 0
  SameSeen seen seen' = (label : String) → is_seen host fuel label seen ≡ Judged.is_seen label seen'

  SameSeen-again :
      (label : String) (seen seen' : List String)
      → is_seen host fuel label seen ≡ true
      → SameSeen seen seen'
      → SameSeen (label ∷ seen) seen'
  SameSeen-again label seen seen' e h other = elim (Bool-cases (str_eq label other)) [
    | inl same ↦ rw same (sym (rw ((eq_iff label other).0 same) at e) ∙ h other)
    | inr differ ↦ rw differ (h other)
  ]

  SameSeen-new :
      (label : String) (seen seen' : List String)
      → SameSeen seen seen'
      → SameSeen (label ∷ seen) (label ∷ seen')
  SameSeen-new label seen seen' h other = elim (Bool-cases (str_eq label other)) [
    | inl same ↦ rw same refl
    | inr differ ↦ rw differ (h other)
  ]

  module _ (expected : Value) (host_type : Value → Value) where
    -- The core checker declares the fields that are elaborated, which are not more than the fields.
    abbrev pub Declares : Context → ℕ → List String → List Core.FieldDeclaration × Context → Type 0
    Declares c most seen' r =
        (n : ℕ) × (n ≤ most)
        × Grows (λ k. Judged.check_declarations k expected host_type r.0 seen') c n r.1

    -- A new field is evaluated and pushed.
    abbrev Declared :
        Context → FieldDeclaration → Core.Term → List Core.FieldDeclaration × Context → Type 0
    Declared c d u r =
        (v : Value) × (ms : List Message) × (r ≡ (
          record { doc = d.doc; label = d.label; type_ = u } ∷ [],
          pushed d.label (host_type v) (with_messages c ms),
        ))
        × EvaluatesTo (core_context c) u v

    Ends-declare :
        (c : Context) (d : FieldDeclaration) (u : Core.Term) (ms : List Message)
        → Ends (Declared c d u) (declare_field host fuel host_type d u false (with_messages c ms))
    unfolding push_local_param push_local Locals.push
    Ends-declare c d u ms = Ends-bind ((Yields-eval {c = c} fuel u).apply ms) λ r p. returns (
      r.0,
      p.1.0,
      ap
          (λ (x : Context). (
            record { doc = d.doc; label = d.label; type_ = u } ∷ [],
            pushed d.label (host_type r.0) x,
          ))
          p.1.1,
      p.0,
    )

    pub Meets-declarations :
        (ds : List FieldDeclaration) (seen seen' : List String) (c : Context)
        → SameSeen seen seen'
        → IsInSync c
        → length c.local_declarations + length ds < u32_end
        → FieldsDirect ds
        → Meets c
            (Declares c (length ds) seen')
            (elaborate_declarations host fuel expected host_type ds seen)
    unfolding elaborate_declarations push_local_param push_local push_message
        Judged.check_declarations Checked.eval
    Meets-declarations [] seen seen' c same s fits direct = record {
      apply =
          λ ms. returns (0, omega arith, (GrowsBy-refl c c.core_to_surface ms, (0, λ k le. refl)));
    }
    Meets-declarations (d ∷ ds) seen seen' c same s fits direct =
        after (Yields-check_type host c s fuel d.type_ expected direct.0) λ u a.
          elim (Bool-cases (is_seen host fuel d.label seen)) [
            | inl again ↦ record {
              apply = λ ms. rw again (
                  Ends-bind
                    ((Meets-declarations ds (d.label ∷ seen) seen' c
                        (SameSeen-again d.label seen seen' again same) s (omega (arith, fits))
                        direct.1).apply
                      _)
                    λ r p. returns (p.0, omega (arith, p.1), p.2));
            }
            | inr new ↦ rw new (record {
              apply = λ ms. Ends-bind (Ends-declare c d u ms) λ r q.
                  let (v, ms', is, e) = q in
                  let c' = with_messages c ms' in
                  let b = pushed d.label (host_type v) c' in
                  let grows = GrowsBy-pushed d.label (host_type v) c' in
                  let (s', long) = GrowsBy-IsInSync c' b 1 s (omega (arith, fits)) grows in
                  rw is (
                    Ends-bind
                      ((Meets-declarations ds (d.label ∷ seen) (d.label ∷ seen') b
                          (SameSeen-new d.label seen seen' same) s' (omega (arith, long, fits))
                          direct.1).apply
                        b.messages)
                      λ r p. returns (
                        suc p.0,
                        omega (arith, p.1),
                        (
                          GrowsBy-trans c b r.1 1 p.0 (suc p.0) (omega arith) grows p.2.0,
                          let (n, h) = both a (both e p.2.1) in
                              (
                                n,
                                λ k le.
                                    rw
                                      (
                                        (h k le).0,
                                        (h k le).1.0,
                                        sym (same d.label),
                                        new,
                                        push-pushed d.label (host_type v) c',
                                      )
                                      ((h k le).1.1),
                              ),
                        ),
                      ));
            })
          ]
