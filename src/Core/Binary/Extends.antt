-- ===== src/Core/Binary/Extends.antt =====
-- fathom/src/lang/core/binary/read.rs: what reading a format does to the reader and to the queue of
-- links, however the read ends.
pub mod Names
pub mod Format
pub mod Links
use mathlib.Core.Path.{subst}
use mathlib.Core.List.{append-nil, append_assoc}
use ddl.Prelude.{
  ℕ, ◌≤◌, ◌<◌, ◌≡◌, refl, sym, ap, ◌∙◌, Bool, true, false, List, [], ◌∷◌, ◌++◌, length, All,
  if◌then◌else◌, arith,
}
use ddl.Outcome.{Outcome, ok, err, panic, timeout, Fault}
use ddl.Runtime.Read.{ReadScope, ReadError, IsBuffer, usize_end}
use ddl.Core.Semantics.Value.{Value}
use ddl.Core.Binary.Session.{Session, Parses, after, ◌>>=◌, pure, fail, abort, run}

-- The links of `more` have positions that fit a `usize`.
abbrev pub AreUsize : List (ℕ × Value) → Type 0
AreUsize more = All (λ (link : ℕ × Value). link.0 < usize_end) more

-- The reader stays in its scope, does not go back and does not leave the data, and the queue of links
-- grows at its end.
pub record Extends (s s' : Session) : Type 0 where
  pub same_scope : s'.reader.scope ≡ s.reader.scope
  pub forward : s.reader.offset ≤ s'.reader.offset
  pub inside :
      s.reader.offset ≤ length s.reader.scope.bytes → s'.reader.offset ≤ length s.reader.scope.bytes
  pub queued :
      (more : List (ℕ × Value)) × (s'.pending_links ≡ s.pending_links ++ more) × AreUsize more

All-append {ℓ} :
    {A : Type 0} (P : A → Type ℓ) (xs ys : List A) → All P xs → All P ys → All P (xs ++ ys)
All-append P [] ys h k = k
All-append P (x ∷ xs) ys h k = (h.0, All-append P xs ys h.1 k)

pub Extends-refl : (s : Session) → Extends s s
Extends-refl s = record {
  same_scope = refl;
  forward = omega arith;
  inside = λ h. h;
  queued = ([], sym (append-nil s.pending_links), tt);
}

pub Extends-trans : (s t u : Session) → Extends s t → Extends t u → Extends s u
Extends-trans s t u p q =
    let same : length t.reader.scope.bytes ≡ length s.reader.scope.bytes =
      ap (λ (x : ReadScope). length x.bytes) p.same_scope in
    record {
      same_scope = q.same_scope ∙ p.same_scope;
      forward = omega (arith, p.forward, q.forward);
      inside = λ h. omega (arith, same, p.inside h, q.inside (omega (arith, same, p.inside h)));
      queued = (
        p.queued.0 ++ q.queued.0,
        q.queued.1 ∙ rw p.queued.1 (append_assoc s.pending_links p.queued.0 q.queued.0),
        All-append _ p.queued.0 q.queued.0 p.queued.2 q.queued.2,
      );
    }

-- A computation that extends every session over a buffer.
abbrev pub Keeps : {A : Type 0} → Parses A → Type 0
Keeps m = (s : Session) → IsBuffer s.reader.scope.bytes → Extends s (m s).1

pub Keeps-pure : {A : Type 0} (a : A) → Keeps (pure a)
Keeps-pure a s b = Extends-refl s

pub Keeps-fail : (A : Type 0) (e : ReadError) → Keeps (fail {A = A} e)
Keeps-fail A e s b = Extends-refl s

pub Keeps-abort : (A : Type 0) (x : Fault) → Keeps (abort {A = A} x)
Keeps-abort A x s b = Extends-refl s

pub Keeps-run : {A : Type 0} (m : Outcome ⊥ A) → Keeps (run m)
Keeps-run (ok a) s b = Extends-refl s
Keeps-run (err e) s b = absurd e
Keeps-run (panic x) s b = Extends-refl s
Keeps-run timeout s b = Extends-refl s

pub after-Extends :
    {A B : Type 0} (s : Session) (p : Outcome ReadError A × Session) (f : A → Parses B)
    → Extends s p.1
    → IsBuffer s.reader.scope.bytes
    → ((a : A) → Keeps (f a))
    → Extends s (after p f).1
after-Extends s (ok a, t) f e b h =
    Extends-trans s t _ e (h a t (subst (λ (x : ReadScope). IsBuffer x.bytes) (sym e.same_scope) b))
after-Extends s (err x, t) f e b h = e
after-Extends s (panic x, t) f e b h = e
after-Extends s (timeout, t) f e b h = e

pub Keeps-bind :
    {A B : Type 0} (m : Parses A) (f : A → Parses B)
    → Keeps m
    → ((a : A) → Keeps (f a))
    → Keeps (m >>= f)
Keeps-bind m f k h s b = after-Extends s (m s) f (k s b) b h

pub Keeps-map : {A B : Type 0} (m : Parses A) (f : A → B) → Keeps m → Keeps (m >>= λ a. pure (f a))
Keeps-map m f k s b = after-Extends s (m s) (λ a. pure (f a)) (k s b) b (λ a t c. Extends-refl t)

pub Keeps-if :
    {A : Type 0} (c : Bool) (m n : Parses A) → Keeps m → Keeps n → Keeps (if c then m else n)
Keeps-if true m n p q = p
Keeps-if false m n p q = q
