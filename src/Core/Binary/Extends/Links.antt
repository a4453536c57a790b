-- ===== src/Core/Binary/Extends/Links.antt =====
-- fathom/src/lang/core/binary/read.rs: the links that `read_item` follows, and the queue that it leaves.
use mathlib.Core.Path.{subst}
use ddl.Prelude.{
  ℕ, zero, suc, ◌≡◌, refl, sym, ap, ◌∙◌, String, Option, none, some, List, [], ◌∷◌, ◌++◌, arith,
  Option-cases, inl, inr,
}
use ddl.Outcome.{Outcome, ok, err, panic, timeout}
use ddl.Runtime.Read.{
  FormatReader, ReadScope, ReadError, IsBuffer, scope_offset, reader_scope, reader,
}
use ddl.Core.Binary.Read.{read_format}
use ddl.Runtime.Scope.{scope_offset-IsBuffer}
use ddl.Core.Term.{get_entry}
use ddl.Core.Semantics.Value.{Value, ItemData}
use ddl.Core.Binary.Session.{Context, Session, Parses, after}
use ddl.Core.Binary.Item.{
  Links, get_link, read_named, read_in_scope, read_link_at, follow_next, follow_links, read_linked,
  read_rooted, read_item, clear_pending,
}
use ddl.Core.Binary.Extends.Format.{read_format-Extends}

-- No position has two entries.
abbrev pub AreDistinct : Links → Type 0
AreDistinct [] = Unit {0}
AreDistinct ((offset, value) ∷ links) = (get_link links offset ≡ none) × AreDistinct links

-- What one link was read to: its format, by a reader at the start of the scope at its offset in the
-- root scope, with some links in the queue; and the links that the queue had after it.
pub record IsReadAs (fuel : ℕ) (ctx : Context) (root : ReadScope) (offset : ℕ) (format v : Value)
    (more : List (ℕ × Value)) : Type 0 where
  pub scope : ReadScope
  pub placed : scope_offset root offset ≡ ok scope
  pub queue : List (ℕ × Value)
  pub end : FormatReader
  pub value_read :
      read_format fuel ctx format
        (record { pending_links = queue; reader = record { scope = scope; offset = 0 } })
      ≡ (ok v, record { pending_links = queue ++ more; reader = end })

module _ (fuel : ℕ) (ctx : Context) (root : ReadScope) where
  -- Each link of the queue has an entry, which was read with its format.
  abbrev pub AreRead : List (ℕ × Value) → Links → Type 0
  AreRead [] links = Unit {0}
  AreRead ((offset, format) ∷ rest) links =
      ((v : Value) × (get_link links offset ≡ some v)
        × ((more : List (ℕ × Value)) × IsReadAs fuel ctx root offset format v more))
      × AreRead rest links

  -- Each of the entries is what a link was read to, and the links that it queued were read too.
  abbrev pub AreClosed : Links → Links → Type 0
  AreClosed [] links = Unit {0}
  AreClosed ((offset, v) ∷ rest) links =
      ((format : Value) × (more : List (ℕ × Value)) × IsReadAs fuel ctx root offset format v more
        × AreRead more links)
      × AreClosed rest links

  AreRead-append :
      (xs ys : List (ℕ × Value)) (links : Links)
      → AreRead (xs ++ ys) links
      → AreRead xs links × AreRead ys links
  AreRead-append [] ys links h = (tt, h)
  AreRead-append ((o, f) ∷ xs) ys links h =
      let (left, right) = AreRead-append xs ys links h.1 in ((h.0, left), right)

-- The links of the first map are in the second.
abbrev IsKept : Links → Links → Type 0
IsKept parsed links =
    (offset : ℕ) (v : Value) → get_link parsed offset ≡ some v → get_link links offset ≡ some v

read_in_scope-IsReadAs :
    (fuel : ℕ) (ctx : Context) (root : ReadScope) (offset : ℕ) (format : Value) (s s' : Session)
    (v : Value) (o : Outcome ReadError ReadScope)
    → scope_offset root offset ≡ o
    → ((t : ReadScope) → o ≡ ok t → IsBuffer t.bytes)
    → read_in_scope fuel ctx format o s ≡ (ok v, s')
    → (more : List (ℕ × Value)) × (s'.pending_links ≡ s.pending_links ++ more)
      × IsReadAs fuel ctx root offset format v more
unfolding reader
read_in_scope-IsReadAs fuel ctx root offset format s s' v (ok scope) p b e =
    let inner : Session = record s { reader = record { scope = scope; offset = 0 } } in
    let ext = read_format-Extends fuel ctx format inner (b scope refl) in
    let result = read_format fuel ctx format inner in
    (
      ext.queued.0,
      sym (ap (λ (q : Outcome ReadError Value × Session). q.1.pending_links) e) ∙ ext.queued.1,
      record {
        scope = scope;
        placed = p;
        queue = s.pending_links;
        end = result.1.reader;
        value_read =
            λ i. ((e i).0, record { pending_links = ext.queued.1 i; reader = result.1.reader });
      },
    )
read_in_scope-IsReadAs fuel ctx root offset format s s' v (err x) p b e =
    cc (ap (λ (q : Outcome ReadError Value × Session). q.0) e)
read_in_scope-IsReadAs fuel ctx root offset format s s' v (panic x) p b e =
    cc (ap (λ (q : Outcome ReadError Value × Session). q.0) e)
read_in_scope-IsReadAs fuel ctx root offset format s s' v timeout p b e =
    cc (ap (λ (q : Outcome ReadError Value × Session). q.0) e)

-- What the loop leaves when it ends without an error.
pub record Followed (fuel : ℕ) (ctx : Context) (root : ReadScope) (parsed : Links)
    (queue : List (ℕ × Value)) (links : Links) (s' : Session) : Type 0 where
  pub distinct : AreDistinct links
  pub kept : IsKept parsed links
  pub read_all : AreRead fuel ctx root queue links
  pub closed : AreClosed fuel ctx root parsed links → AreClosed fuel ctx root links links
  pub drained : s'.pending_links ≡ []

module _ (fuel : ℕ) (ctx : Context) (root : ReadScope) (b : IsBuffer root.bytes) (links : Links)
    (s' : Session) where
  abbrev Follows : (Links → Parses Links) → Type 0
  Follows next =
      (parsed : Links) (s : Session)
      → AreDistinct parsed
      → next parsed s ≡ (ok links, s')
      → Followed fuel ctx root parsed s.pending_links links s'

  read_then :
      (next : Links → Parses Links)
      → Follows next
      → (parsed : Links) (offset : ℕ) (rest : List (ℕ × Value)) (format : Value) (s : Session)
      → s.pending_links ≡ rest
      → AreDistinct parsed
      → get_link parsed offset ≡ none
      → (p : Outcome ReadError Value × Session) → read_link_at fuel ctx root offset format s ≡ p
      → after p (λ value. next ((offset, value) ∷ parsed)) ≡ (ok links, s')
      → Followed fuel ctx root parsed ((offset, format) ∷ rest) links s'
  unfolding read_link_at
  read_then next h parsed offset rest format s r d fresh (ok value, t) q e =
      let f = h ((offset, value) ∷ parsed) t (fresh, d) e in
      let (more, grown, read) =
        read_in_scope-IsReadAs fuel ctx root offset format s t value (scope_offset root offset) refl
          (λ u. scope_offset-IsBuffer root offset u b) q in
      let (left, right) = AreRead-append fuel ctx root rest more links (
        subst (λ x. AreRead fuel ctx root x links)
          (grown ∙ ap (λ (x : List (ℕ × Value)). x ++ more) r) f.read_all) in
      record {
        distinct = f.distinct;
        kept = λ o v g. f.kept o v (ground arith);
        read_all = ((value, f.kept offset value (ground arith), (more, read)), left);
        closed = λ h. f.closed ((format, more, read, right), h);
        drained = f.drained;
      }
  read_then next h parsed offset rest format s r d fresh (err x, t) q e =
      cc (ap (λ (q : Outcome ReadError Links × Session). q.0) e)
  read_then next h parsed offset rest format s r d fresh (panic x, t) q e =
      cc (ap (λ (q : Outcome ReadError Links × Session). q.0) e)
  read_then next h parsed offset rest format s r d fresh (timeout, t) q e =
      cc (ap (λ (q : Outcome ReadError Links × Session). q.0) e)

  next_then :
      (next : Links → Parses Links)
      → Follows next
      → (parsed : Links) (queue : List (ℕ × Value)) (s : Session) → AreDistinct parsed
      → s.pending_links ≡ queue
      → follow_next next fuel ctx root parsed queue s ≡ (ok links, s')
      → Followed fuel ctx root parsed queue links s'
  next_then next h parsed [] s d r e =
      let same : parsed ≡ links = ground arith in
      let left : s ≡ s' = ap (λ (q : Outcome ReadError Links × Session). q.1) e in
      record {
        distinct = subst AreDistinct same d;
        kept = λ o v g. rw (← same) g;
        read_all = tt;
        closed =
            subst (λ x. AreClosed fuel ctx root parsed x → AreClosed fuel ctx root x x) same
              (λ h. h);
        drained = rw (← left) r;
      }
  next_then next h parsed ((offset, format) ∷ rest) s d r e =
      elim (Option-cases (get_link parsed offset)) [
        | inl fresh ↦
            read_then next h parsed offset rest format (record s { pending_links = rest }) refl d
              fresh _ refl (rw fresh at e)
        | inr (v, taken) ↦ cc (ap (λ (q : Outcome ReadError Links × Session). q.0) (rw taken at e))
      ]

  follow_links-Followed : (rounds : ℕ) → Follows (follow_links rounds fuel ctx root)
  unfolding follow_links
  follow_links-Followed zero parsed s d e =
      cc (ap (λ (q : Outcome ReadError Links × Session). q.0) e)
  follow_links-Followed (suc n) parsed s d e =
      next_then (follow_links n fuel ctx root) (follow_links-Followed n) parsed s.pending_links s d
        refl e

-- What a successful `read_item` has done: `root` is the scope that the reader stood at, and `t` the
-- session after the item itself.
pub record Linked (fuel : ℕ) (ctx : Context) (data' : Option ItemData) (v : Value) (links : Links)
    (s s' : Session) : Type 0 where
  pub root : ReadScope
  pub rooted : reader_scope s.reader ≡ ok root
  pub t : Session
  pub item_read : read_named fuel ctx data' s ≡ (ok v, t)
  pub distinct : AreDistinct links
  pub read_all : AreRead fuel ctx root t.pending_links links
  pub closed : AreClosed fuel ctx root links links
  pub drained : s'.pending_links ≡ []

module _ (fuel rounds : ℕ) (ctx : Context) (data' : Option ItemData) (v : Value) (links : Links)
    (s s' : Session) where
  loop-Linked :
      (root : ReadScope)
      → reader_scope s.reader ≡ ok root
      → IsBuffer root.bytes
      → (w : Value) (t : Session) → read_named fuel ctx data' s ≡ (ok w, t)
      → (p : Outcome ReadError Links × Session) → follow_links rounds fuel ctx root [] t ≡ p
      → clear_pending {A = Value × Links} (after p (λ parsed u. (ok (w, parsed), u)))
        ≡ (ok (v, links), s')
      → Linked fuel ctx data' v links s s'
  loop-Linked root a b w t r (ok parsed, u) q e =
      let same : parsed ≡ links = ground arith in
      let same_value : w ≡ v = ground arith in
      let f = follow_links-Followed fuel ctx root b parsed u rounds [] t tt q in
      record {
        root = root;
        rooted = a;
        t = t;
        item_read = subst (λ x. read_named fuel ctx data' s ≡ (ok x, t)) same_value r;
        distinct = subst AreDistinct same f.distinct;
        read_all = subst (AreRead fuel ctx root t.pending_links) same f.read_all;
        closed = subst (λ x. AreClosed fuel ctx root x x) same (f.closed tt);
        drained =
            sym (ap (λ (x : Outcome ReadError (Value × Links) × Session). x.1.pending_links) e);
      }
  loop-Linked root a b w t r (err x, u) q e =
      cc (ap (λ (x : Outcome ReadError (Value × Links) × Session). x.0) e)
  loop-Linked root a b w t r (panic x, u) q e =
      cc (ap (λ (x : Outcome ReadError (Value × Links) × Session). x.0) e)
  loop-Linked root a b w t r (timeout, u) q e =
      cc (ap (λ (x : Outcome ReadError (Value × Links) × Session). x.0) e)

  item-Linked :
      (root : ReadScope)
      → reader_scope s.reader ≡ ok root
      → IsBuffer root.bytes
      → (p : Outcome ReadError Value × Session) → read_named fuel ctx data' s ≡ p
      → clear_pending {A = Value × Links} (
          after p
            λ w t. after (follow_links rounds fuel ctx root [] t) (λ parsed u. (ok (w, parsed), u)))
        ≡ (ok (v, links), s')
      → Linked fuel ctx data' v links s s'
  item-Linked root a b (ok w, t) q e =
      loop-Linked root a b w t q (follow_links rounds fuel ctx root [] t) refl e
  item-Linked root a b (err x, t) q e =
      cc (ap (λ (x : Outcome ReadError (Value × Links) × Session). x.0) e)
  item-Linked root a b (panic x, t) q e =
      cc (ap (λ (x : Outcome ReadError (Value × Links) × Session). x.0) e)
  item-Linked root a b (timeout, t) q e =
      cc (ap (λ (x : Outcome ReadError (Value × Links) × Session). x.0) e)

  root-Linked :
      (o : Outcome ReadError ReadScope)
      → reader_scope s.reader ≡ o
      → ((root : ReadScope) → o ≡ ok root → IsBuffer root.bytes)
      → read_rooted rounds fuel ctx data' o s ≡ (ok (v, links), s')
      → Linked fuel ctx data' v links s s'
  unfolding read_linked
  root-Linked (ok root) a b e =
      item-Linked root a (b root refl) (read_named fuel ctx data' s) refl e
  root-Linked (err x) a b e = cc (ap (λ (x : Outcome ReadError (Value × Links) × Session). x.0) e)
  root-Linked (panic x) a b e = cc (ap (λ (x : Outcome ReadError (Value × Links) × Session). x.0) e)
  root-Linked timeout a b e = cc (ap (λ (x : Outcome ReadError (Value × Links) × Session). x.0) e)

-- A successful `read_item`, over a buffer, has read the named item, and leaves no link pending. Each
-- link that stood in the queue after the item has an entry in the table of links: the value that its
-- format was read to, by a reader at the start of the scope at its position in the scope of the item.
-- Each entry of the table is what a format was read to at its position in this way, and each link
-- that this read queued has such an entry too. No position has two entries.
pub read_item-Linked :
    (rounds fuel : ℕ) (ctx : Context) (name : String) (s s' : Session) (v : Value) (links : Links)
    → IsBuffer s.reader.scope.bytes
    → read_item rounds fuel ctx name s ≡ (ok (v, links), s')
    → Linked fuel ctx (get_entry ctx.items name) v links s s'
unfolding read_item reader_scope
read_item-Linked rounds fuel ctx name s s' v links b e =
    root-Linked fuel rounds ctx (get_entry ctx.items name) v links s s' (reader_scope s.reader) refl
      (λ root. scope_offset-IsBuffer s.reader.scope s.reader.offset root b) e
