-- ===== src/Session/Calls/Taking.antt =====
-- What `poll_read` and `poll_next` do, seen from the two ends.
use rust_yamux.Common.{
  ℕ, ◌≡◌, refl, false, not, ◌&&◌, List, [], ◌++◌, Option, none, some, arith, inl, inr, subst,
  Result, ok, err, Poll, ready, pending, panicked, stuck, take-append-drop, sym, ◌∙◌, ap,
  Bool-cases,
}
use rust_yamux.Chunks.Content
use rust_yamux.Stream.State.{can_read, can_write}
use rust_yamux.Stream.Handle.{Channel, Stream, Context, send_window_update}
use rust_yamux.Stream.Reader.{read_buffer, take_packet, poll_read, poll_next}
use rust_yamux.Stream.Reading.{PacketEnds, read_buffer_ends, take_packet_ends}
use rust_yamux.Session.{Fifo, reported_read, reported_packet}
use rust_yamux.Session.Calls.{Effects, Fit, Idle-Effect, same-Idle}
use rust_yamux.Session.Calls.Read.{update-Effects}

module _ {C : Type 0} where
  -- The reader took `g` off the unread bytes, and nothing else that matters here has changed.
  record Taken (s t : Stream C) (g : List ℕ) : Type 0 where
    same : t ≡ record s {
      shared = record (s.shared) { buffer = t.shared.buffer; reader = t.shared.reader };
    }
    unread : Content.content s.shared.buffer ≡ g ++ Content.content t.shared.buffer
    buffer : Content.IsValid t.shared.buffer

module _ {C : Type 0} (ch : Channel C) (fifo : Fifo ch) where
  reads_on :
      (s u t : Stream C) (g : List ℕ)
      → Effects ch fifo s u [] []
      → Taken u t g
      → Effects ch fifo s t [] g
  reads_on s u t g (sent, n, e) k = (
    sent,
    n,
    record {
      id = ap (λ (x : Stream C). x.id) k.same ∙ e.id;
      flag = λ p. e.flag (sym (ap (λ (x : Stream C). x.flag) k.same) ∙ p);
      queue = ap (λ (x : Stream C). fifo.queued x.channel) k.same ∙ e.queue;
      queues = e.queues;
      send = omega (arith, e.send, ap (λ (x : Stream C). x.shared.flow.send_window) k.same);
      receive =
          omega (arith, e.receive, ap (λ (x : Stream C). x.shared.flow.receive_window) k.same);
      room = omega (arith, e.room, ap (λ (x : Stream C). x.shared.flow.receive_window) k.same);
      unread = e.unread ∙ k.unread;
      buffer = k.buffer;
      reads = ap (λ (x : Stream C). can_read x.shared.state) k.same ∙ e.reads;
      writes = rw (ap (λ (x : Stream C). can_write x.shared.state) k.same) e.writes;
    },
  )

  module _ (cx : Context) where
    read_buffer-Taken :
        (want : ℕ) (s : Stream C)
        → Content.IsValid s.shared.buffer
        → Taken s (read_buffer ch cx want s).1 (reported_read (read_buffer ch cx want s).0)
    unfolding reported_read
    read_buffer-Taken want s v =
        let (c, w, e) = read_buffer_ends ch cx want s v in
        record {
          same = unfold read_buffer in ground arith;
          unread = ground (arith, c, e, take-append-drop want (Content.content s.shared.buffer));
          buffer = w;
        }

    take_packet-Taken :
        (s : Stream C)
        → Content.IsValid s.shared.buffer
        → Taken s (take_packet ch cx s).1 (reported_packet (take_packet ch cx s).0)
    unfolding reported_packet PacketEnds
    take_packet-Taken s v =
        let p = take_packet_ends ch cx s v in
        record {
          same = unfold take_packet in ground arith;
          unread = ground (arith, p);
          buffer = p.0;
        }

    module _ (s : Stream C) (f : Fit ch fifo s) where
      abbrev updated : Stream C
      updated = (send_window_update ch cx s).1

      updated-Effects : Effects ch fifo s updated [] []
      updated-Effects = update-Effects ch fifo cx s f

      updated-IsValid : Content.IsValid updated.shared.buffer
      updated-IsValid = updated-Effects.2.buffer

      abbrev Reads : Poll (Result ℕ (List ℕ)) × Stream C → Type 0
      Reads (r, t) = Effects ch fifo s t [] (reported_read r)

      abbrev Packets : Poll (Option (Result ℕ (List ℕ))) × Stream C → Type 0
      Packets (r, t) = Effects ch fifo s t [] (reported_packet r)

      stays : Effects ch fifo s s [] []
      stays = ([], 0, Idle-Effect ch fifo s s f (same-Idle ch fifo s))

      pub read-Effects : (want : ℕ) → Reads (poll_read ch cx want s)
      unfolding poll_read reported_read reported_packet
      read-Effects want =
          elim (Bool-cases (not cx.config.read_after_close && ch.is_closed s.channel)) [
            | inl r ↦
                let p : (ready (ok []), s) ≡ poll_read ch cx want s = ground arith in
                subst Reads p stays
            | inr r ↦ go r (send_window_update ch cx s).0 refl
          ]
        where
          taken : Reads (read_buffer ch cx want updated)
          taken =
              reads_on s updated _ _ updated-Effects
                (read_buffer-Taken want updated updated-IsValid)

          go :
              (not cx.config.read_after_close && ch.is_closed s.channel) ≡ false
              → (r : Poll (Result ℕ (Unit {0}))) → (send_window_update ch cx s).0 ≡ r
              → Reads (poll_read ch cx want s)
          go k (ready (ok u)) e =
              let p : read_buffer ch cx want updated ≡ poll_read ch cx want s = ground arith in
              subst Reads p taken
          go k (ready (err x)) e =
              let p : (ready (err x), updated) ≡ poll_read ch cx want s = ground arith in
              subst Reads p updated-Effects
          go k pending e =
              let p : read_buffer ch cx want updated ≡ poll_read ch cx want s = ground arith in
              subst Reads p taken
          go k panicked e =
              let p : (panicked, updated) ≡ poll_read ch cx want s = ground arith in
              subst Reads p updated-Effects
          go k stuck e =
              let p : (stuck, updated) ≡ poll_read ch cx want s = ground arith in
              subst Reads p updated-Effects

      pub next-Effects : Packets (poll_next ch cx s)
      unfolding poll_next reported_read reported_packet
      next-Effects = elim (Bool-cases (not cx.config.read_after_close && ch.is_closed s.channel)) [
        | inl r ↦
            let p : (ready none, s) ≡ poll_next ch cx s = ground arith in subst Packets p stays
        | inr r ↦ go r (send_window_update ch cx s).0 refl
      ]
        where
          taken : Packets (take_packet ch cx updated)
          taken = reads_on s updated _ _ updated-Effects (take_packet-Taken updated updated-IsValid)

          go :
              (not cx.config.read_after_close && ch.is_closed s.channel) ≡ false
              → (r : Poll (Result ℕ (Unit {0}))) → (send_window_update ch cx s).0 ≡ r
              → Packets (poll_next ch cx s)
          go k (ready (ok u)) e =
              let p : take_packet ch cx updated ≡ poll_next ch cx s = ground arith in
              subst Packets p taken
          go k (ready (err x)) e =
              let p : (ready (some (err x)), updated) ≡ poll_next ch cx s = ground arith in
              subst Packets p updated-Effects
          go k pending e =
              let p : take_packet ch cx updated ≡ poll_next ch cx s = ground arith in
              subst Packets p taken
          go k panicked e =
              let p : (panicked, updated) ≡ poll_next ch cx s = ground arith in
              subst Packets p updated-Effects
          go k stuck e =
              let p : (stuck, updated) ≡ poll_next ch cx s = ground arith in
              subst Packets p updated-Effects
