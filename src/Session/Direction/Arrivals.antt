-- ===== src/Session/Direction/Arrivals.antt =====
-- A frame that arrives keeps both directions as they should be.
use rust_yamux.Common.{
  ℕ, ◌+◌, ◌≡◌, ◌≤◌, ◌⊎◌, refl, Bool, true, false, List, [], ◌∷◌, ◌++◌, length, Option, none, some,
  arith, inl, inr, ap, sym, ◌∙◌, Bool-cases, append_assoc, length-append, append-nil,
}
use rust_yamux.Chunks.Content
use rust_yamux.Frame.{Frame}
use rust_yamux.Stream.State.{can_read, can_write}
use rust_yamux.Stream.Shared.{Shared}
use rust_yamux.Connection.Active.{Handle}
use rust_yamux.Session.Flight.{bodies, credits, has_fin, NoFin}
use rust_yamux.Session.Arrival.{Arrived}
use rust_yamux.Session.Direction.{Side, Dir, Listed, claimed}

-- What the arrival of `f` does to a side: it is taken in by a connection that has the stream, and
-- may make it leave, or it is dropped.
pub record Lands (f : Frame) (x y : Side) : Type 0 where
  pub handle : y.handle ≡ x.handle
  pub written : y.written ≡ x.written
  pub got : y.got ≡ x.got
  pub outcome :
      Listed x
        × Arrived f x.shared y.shared
        × (Listed y ⊎ (has_fin f ≡ true) × (y.entry ≡ none) × (can_write y.shared.state ≡ false))
      ⊎ (x.entry ≡ none) × (y.entry ≡ none) × (y.shared ≡ x.shared)

absent : {x : Option ℕ} {a : ℕ} → x ≡ none → x ≡ some a → ⊥
absent p q = cc

differ : {b : Bool} → b ≡ false → b ≡ true → ⊥
differ p q = cc

append-is_nil : (xs ys : List ℕ) → xs ++ ys ≡ [] → (xs ≡ []) × (ys ≡ [])
append-is_nil [] ys e = (refl, e)
append-is_nil (x ∷ xs) ys e = absurd (cc)

module _ (f : Frame) (ahead behind : List Frame) where
  module _ (w w' r : Side) (l : Lands f w w') (d : Dir w r ahead (f ∷ behind)) where
    writer_writes : can_write w'.shared.state ≡ can_write w.shared.state
    writer_writes = elim l.outcome [
      | inl (a, b, c) ↦ b.writes
      | inr (a, b, c) ↦ ap (λ (x : Shared). can_write x.state) c
    ]

    still : can_write w'.shared.state ≡ true → can_write w.shared.state ≡ true
    still p = sym writer_writes ∙ p

    writer_claims :
        (can_write w.shared.state ≡ true → claimed w' ahead behind ≡ claimed w ahead (f ∷ behind))
        × (claimed w' ahead behind ≤ claimed w ahead (f ∷ behind))
    unfolding credits
    writer_claims = elim l.outcome [
      | inl (a, b, c) ↦ (λ p. omega (arith, b.send), omega (arith, b.send))
      | inr (a, b, c) ↦ (
        λ p. absurd (absent a (d.unfinished p).1),
        omega (arith, ap (λ (x : Shared). x.flow.send_window) c),
      )
    ]

    stays_there : can_write w'.shared.state ≡ true → Listed w'
    stays_there p = elim l.outcome [
      | inl (a, b, inl k) ↦ k
      | inl (a, b, inr (k, o, q)) ↦ absurd (differ q p)
      | inr (a, b, c) ↦ absurd (absent a (d.unfinished (still p)).1)
    ]

    pub lands-writer : Dir w' r ahead behind
    lands-writer = record {
      id = ap (λ (h : Handle). h.id) l.handle ∙ d.id;
      flag = λ p. d.flag (sym (ap (λ (h : Handle). h.flag) l.handle) ∙ p);
      carried = d.carried;
      last = d.last;
      room = d.room;
      buffer = d.buffer;
      credit = omega (arith, d.credit, writer_claims.1);
      exact = λ p. writer_claims.0 (still p) ∙ d.exact (still p);
      unfinished = λ p. let (a, b, c, q) = d.unfinished (still p) in (a, stays_there p, c, q);
      kept = elim d.kept [ inl k ↦ inl k | inr (a, b, c) ↦ inr (a, b, writer_writes ∙ c) ];
      log = l.written ∙ d.log;
    }

  module _ (w r r' : Side) (l : Lands f r r') (d : Dir w r (f ∷ ahead) behind) where
    nothing_left : r.entry ≡ none → (f.body ≡ []) × (bodies ahead ≡ [])
    unfolding bodies
    nothing_left e = elim d.kept [
      | inl k ↦ absurd (absent e k)
      | inr (a, b, c) ↦ append-is_nil f.body (bodies ahead) b
    ]

    -- The body is taken in; where the connection has dropped the stream, it was empty.
    taken :
        Content.IsValid r'.shared.buffer
        × (r'.shared.flow.receive_window + length f.body ≡ r.shared.flow.receive_window)
        × (Content.content r'.shared.buffer ≡ Content.content r.shared.buffer ++ f.body)
    taken = elim l.outcome [
      | inl (a, b, c) ↦ (b.buffer, b.receive, b.unread)
      | inr (a, b, c) ↦
          let (e, e') = nothing_left a in
          rw (c, e) (d.buffer, omega arith, sym (append-nil (Content.content r.shared.buffer)))
    ]

    reader_claims : claimed w (f ∷ ahead) behind ≡ claimed w ahead behind + length f.body
    unfolding bodies
    reader_claims = omega (arith, length-append f.body (bodies ahead))

    fin_last : has_fin f ≡ true → (bodies ahead ≡ []) × (can_write w.shared.state ≡ false)
    fin_last e = elim (Bool-cases (can_write w.shared.state)) [
      | inl p ↦ absurd (differ (d.unfinished p).0.0 e)
      | inr p ↦ (d.last.0 e, p)
    ]

    reader_kept :
        Listed r' ⊎ (r'.entry ≡ none) × (bodies ahead ≡ []) × (can_write w.shared.state ≡ false)
    reader_kept = elim l.outcome [
      | inl (a, b, inl k) ↦ inl k
      | inl (a, b, inr (k, o, q)) ↦ inr (o, (fin_last k).0, (fin_last k).1)
      | inr (a, b, c) ↦ elim d.kept [
        | inl k ↦ absurd (absent a k)
        | inr (x, y, z) ↦ inr (b, (nothing_left a).1, z)
      ]
    ]

    reader_unfinished :
        can_write w.shared.state ≡ true
        → NoFin ahead × Listed w × Listed r' × (can_read r'.shared.state ≡ true)
    reader_unfinished p =
        let (a, b, c, q) = d.unfinished p in
        elim l.outcome [
          | inl (x, y, inl k) ↦ (a.1, b, k, y.reads a.0 ∙ q)
          | inl (x, y, inr (k, o, z)) ↦ absurd (differ a.0 k)
          | inr (x, y, z) ↦ absurd (absent x c)
        ]

    reader_log : w.written ≡ r'.got ++ (Content.content r'.shared.buffer ++ bodies ahead)
    unfolding bodies
    reader_log =
        rw (l.got, taken.2)
          (d.log
            ∙ ap (λ x. r.got ++ x)
                (sym (append_assoc (Content.content r.shared.buffer) f.body (bodies ahead))))

    pub lands-reader : Dir w r' ahead behind
    lands-reader = record {
      id = d.id ∙ sym (ap (λ (h : Handle). h.id) l.handle);
      flag = d.flag;
      carried = rw (ap (λ (h : Handle). h.id) l.handle) d.carried.1;
      last = d.last.1;
      room = omega (arith, d.room, taken.1);
      buffer = taken.0;
      credit = omega (arith, d.credit, taken.1, reader_claims);
      exact = λ p. omega (arith, d.exact p, taken.1, reader_claims);
      unfinished = reader_unfinished;
      kept = reader_kept;
      log = reader_log;
    }
