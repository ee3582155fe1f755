-- ===== src/Session/Direction.antt =====
-- One direction of a session: what always holds between an end that writes and the end that reads.
pub mod Arrivals
use rust_yamux.Common.{
  ℕ, ◌+◌, ◌≡◌, ◌≢◌, ◌≤◌, ◌⊎◌, refl, Bool, true, false, List, [], ◌∷◌, ◌++◌, length, All, Option,
  none, some, arith, inl, inr, ap, sym, ◌∙◌, subst, length-append, append_assoc, All-append,
  append-nil,
}
use rust_yamux.Common.Words.{u32_max}
use rust_yamux.Chunks.Content
use rust_yamux.Frame.{Frame}
use rust_yamux.Stream.State.{syn_first, can_read, can_write}
use rust_yamux.Stream.Shared.{Shared}
use rust_yamux.Stream.Handle.{Channel, Stream, StreamCommand}
use rust_yamux.Connection.StreamMap.{get}
use rust_yamux.Session.{Fifo, End, stream_of, after_call, Handle}
use rust_yamux.Session.Flight.{
  bodies, credits, frames_of, NoFin, FinLast, Carried, bodies-append, credits-append,
  FinLast-append, has_fin,
}
use rust_yamux.Session.Calls.{Effect, Fit}

-- An end without its channel and without the other streams of its connection.
pub record Side : Type 0 where
  pub handle : Handle
  pub shared : Shared
  pub entry : Option ℕ
  pub written : List ℕ
  pub got : List ℕ

abbrev pub side : {R T C : Type 0} → End R T C → Side
side e = record {
  handle = e.handle;
  shared = e.conn.heap e.handle.address;
  entry = get e.handle.id e.conn.streams;
  written = e.written;
  got = e.got;
}

-- The connection still has the stream.
abbrev pub Listed : Side → Type 0
Listed e = e.entry ≡ some e.handle.address

-- The credit that the writer has, with what is on its way.
abbrev pub claimed : Side → List Frame → List Frame → ℕ
claimed w ahead behind = w.shared.flow.send_window + length (bodies ahead) + credits behind

-- `ahead` are the frames on their way from the writer `w` to the reader `r`, and `behind` those on
-- their way back. The writer never claims more than the receive window; while it can write, exactly
-- that, no FIN is on its way, and both connections have the stream. What the reader got, what it
-- has not read yet and what is on its way is what was written.
pub record Dir (w r : Side) (ahead behind : List Frame) : Type 0 where
  pub id : w.handle.id ≡ r.handle.id
  pub flag : w.handle.flag ≢ syn_first
  pub carried : All (Carried r.handle.id) ahead
  pub last : FinLast ahead
  pub room : r.shared.flow.receive_window ≤ u32_max
  pub buffer : Content.IsValid r.shared.buffer
  pub credit : claimed w ahead behind ≤ r.shared.flow.receive_window
  pub exact :
      can_write w.shared.state ≡ true → claimed w ahead behind ≡ r.shared.flow.receive_window
  pub unfinished :
      can_write w.shared.state ≡ true
      → NoFin ahead × Listed w × Listed r × (can_read r.shared.state ≡ true)
  pub kept : Listed r ⊎ (r.entry ≡ none) × (bodies ahead ≡ []) × (can_write w.shared.state ≡ false)
  pub log : w.written ≡ r.got ++ (Content.content r.shared.buffer ++ bodies ahead)

-- Nothing is on its way, and what was written has come in.
pub idle-Dir :
    (w r : Side)
    → w.handle.id ≡ r.handle.id
    → w.handle.flag ≢ syn_first
    → r.shared.flow.receive_window ≤ u32_max
    → w.shared.flow.send_window ≡ r.shared.flow.receive_window
    → Listed w
    → Listed r
    → can_read r.shared.state ≡ true
    → Content.IsValid r.shared.buffer
    → w.written ≡ r.got ++ Content.content r.shared.buffer
    → Dir w r [] []
unfolding bodies credits
idle-Dir w r i f u s a b c v l = record {
  id = i;
  flag = f;
  carried = tt;
  last = tt;
  room = u;
  buffer = v;
  credit = omega (arith, s);
  exact = λ p. omega (arith, s);
  unfinished = λ p. (tt, a, b, c);
  kept = inl b;
  log = l ∙ ap (λ x. r.got ++ x) (sym (append-nil (Content.content r.shared.buffer)));
}

-- The side after a call that left the handle as `t` and reported the bytes.
abbrev pub called : {C : Type 0} → Side → Stream C → List ℕ → List ℕ → Side
called x t w g = record {
  handle = record (x.handle) { flag = t.flag };
  shared = t.shared;
  entry = x.entry;
  written = x.written ++ w;
  got = x.got ++ g;
}

log_grows : (q c b x w : List ℕ) → w ≡ q ++ (c ++ b) → w ++ x ≡ q ++ (c ++ (b ++ x))
log_grows q c b x w e =
    ap (λ y. y ++ x) e ∙ append_assoc q (c ++ b) x ∙ ap (λ y. q ++ y) (append_assoc c b x)

log_moves : (q g c c' b : List ℕ) → c ≡ g ++ c' → q ++ (c ++ b) ≡ (q ++ g) ++ (c' ++ b)
log_moves q g c c' b e =
    ap (λ y. q ++ (y ++ b)) e
    ∙ ap (λ y. q ++ y) (append_assoc g c' b)
    ∙ sym (append_assoc q g (c' ++ b))

module _ {C : Type 0} (ch : Channel C) (fifo : Fifo ch) (s t : Stream C) (wr g : List ℕ)
    (sent : List StreamCommand) (n : ℕ) (e : Effect ch fifo s t wr g sent n)
    (ahead behind : List Frame) where
  abbrev frames : List Frame
  frames = frames_of s.id sent

  -- The call is made by the writer.
  module _ (w r : Side) (h : s.id ≡ w.handle.id) (k : s.shared ≡ w.shared)
      (d : Dir w r ahead behind) where
    sent_bodies : bodies (ahead ++ frames) ≡ bodies ahead ++ wr
    sent_bodies = bodies-append ahead frames ∙ ap (λ x. bodies ahead ++ x) e.queues.bytes

    sent_length : length (bodies (ahead ++ frames)) ≡ length (bodies ahead) + length wr
    sent_length = ap length sent_bodies ∙ length-append (bodies ahead) wr

    was : can_write s.shared.state ≡ true → can_write w.shared.state ≡ true
    was q = ap (λ (x : Shared). can_write x.state) (sym k) ∙ q

    nothing_more : {b x : List ℕ} → b ≡ [] → x ≡ [] → b ++ x ≡ []
    nothing_more e f = rw (e, f) refl

    pub call-writer : Dir (called w t wr g) r (ahead ++ frames) behind
    call-writer = record {
      id = d.id;
      flag = e.flag;
      carried =
          All-append (Carried r.handle.id) ahead frames d.carried
            (rw (← d.id, ← h) e.queues.carried);
      last = FinLast-append ahead frames d.last e.queues.last (elim e.writes [
        | inl (q, q', n) ↦ inl (d.unfinished (was q)).0
        | inr (q', z) ↦ inr (e.queues.bytes ∙ z)
      ]);
      room = d.room;
      buffer = d.buffer;
      credit = ground (arith, d.credit, sent_length, e.send, k);
      exact = λ p. ground (arith, d.exact, sent_length, e.send, k, e.writes, p);
      unfinished = λ p. elim e.writes [
        | inl (q, q', n) ↦
            let (a, b, c, z) = d.unfinished (was q) in
            (All-append (λ f. has_fin f ≡ false) ahead frames a n, b, c, z)
        | inr (q', z) ↦ absurd (cc)
      ];
      kept = elim d.kept [
        | inl l ↦ inl l
        | inr (o, b, q) ↦ elim e.writes [
          | inl (v, q', n) ↦ absurd (ground (arith, was v, q))
          | inr (q', z) ↦ inr (o, sent_bodies ∙ nothing_more b z, q')
        ]
      ];
      log =
          log_grows r.got (Content.content r.shared.buffer) (bodies ahead) wr w.written d.log
          ∙ ap (λ x. r.got ++ (Content.content r.shared.buffer ++ x)) (sym sent_bodies);
    }

  -- The call is made by the reader.
  module _ (w r : Side) (h : s.id ≡ r.handle.id) (k : s.shared ≡ r.shared)
      (d : Dir w r ahead behind) where
    pub call-reader : Dir w (called r t wr g) ahead (behind ++ frames)
    call-reader = record {
      id = d.id;
      flag = d.flag;
      carried = d.carried;
      last = d.last;
      room = e.room;
      buffer = e.buffer;
      credit =
          ground (arith, d.credit, credits-append behind frames, e.queues.credit, e.receive, k);
      exact = λ p.
          ground (arith, d.exact p, credits-append behind frames, e.queues.credit, e.receive, k);
      unfinished = λ p.
          let (a, b, c, q) = d.unfinished p in
          (a, b, c, e.reads ∙ ap (λ (x : Shared). can_read x.state) k ∙ q);
      kept = d.kept;
      log =
          d.log
          ∙ log_moves r.got g (Content.content r.shared.buffer) (Content.content t.shared.buffer)
              (bodies ahead) (ap (λ (x : Shared). Content.content x.buffer) (sym k) ∙ e.unread);
    }
