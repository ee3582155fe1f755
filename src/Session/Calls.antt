-- ===== src/Session/Calls.antt =====
-- What a call of a user does to the stream, seen from the two ends: the frames that it queues, the
-- windows, and the unread bytes.
pub mod Write
pub mod Read
pub mod Taking
pub mod Close
use rust_yamux.Common.{
  ℕ, ◌+◌, ◌-◌, ◌≡◌, ◌≤◌, ◌⊎◌, ◌≢◌, refl, Bool, true, false, List, [], ◌∷◌, ◌++◌, length, arith, All,
  Option, none, some, inl, inr, sym, ap, ◌∙◌, append-nil, take, Result, ok, err, Poll, ready,
  pending, panicked, stuck, subst, length-take,
}
use rust_yamux.Common.Words.{u32_max}
use rust_yamux.Chunks.Content
use rust_yamux.Error.{write_zero}
use rust_yamux.Config.{Config}
use rust_yamux.FlowControl
use rust_yamux.FlowControl.{FlowController, next_window_update}
use rust_yamux.Frame.{Frame}
use rust_yamux.Stream.State.{State, next_state, Flag, no_flag, can_read, can_write, syn_first}
use rust_yamux.Stream.Handle.{
  Channel, Half, StreamCommand, Stream, Context, poll_write, poll_flush, poll_close,
  send_window_update, writing, send_frame,
}
use rust_yamux.Stream.Writing.{Writes, poll_write_lem, accepted, data_of, state_after}
use rust_yamux.Session.Flight.{frames_of, NoFin}
use rust_yamux.Session.Sent.{Queues, nothing-Queues, data-Queues, credit-Queues, close-Queues}
use rust_yamux.Session.{Fifo, Call, run, reported_written, write}

module _ {C : Type 0} (ch : Channel C) (fifo : Fifo ch) where
  -- From `s` to `t` the call queued `sent`, with `n` of credit, took `w` for writing and gave `g` to
  -- the reader.
  pub record Effect (s t : Stream C) (w g : List ℕ) (sent : List StreamCommand) (n : ℕ)
      : Type 0 where
    pub id : t.id ≡ s.id
    pub flag : t.flag ≢ syn_first
    pub queue : fifo.queued t.channel ≡ fifo.queued s.channel ++ sent
    pub queues : Queues s.id sent w n
    pub send : t.shared.flow.send_window + length w ≡ s.shared.flow.send_window
    pub receive : t.shared.flow.receive_window ≡ s.shared.flow.receive_window + n
    pub room : t.shared.flow.receive_window ≤ u32_max
    pub unread : Content.content s.shared.buffer ≡ g ++ Content.content t.shared.buffer
    pub buffer : Content.IsValid t.shared.buffer
    pub reads : can_read t.shared.state ≡ can_read s.shared.state
    pub writes :
        ((can_write s.shared.state ≡ true)
          × (can_write t.shared.state ≡ true)
          × NoFin (frames_of s.id sent))
        ⊎ ((can_write t.shared.state ≡ false) × (w ≡ []))

  -- What a call relies on.
  pub record Fit (s : Stream C) : Type 0 where
    pub flag : s.flag ≢ syn_first
    pub send : s.shared.flow.send_window ≤ u32_max
    pub room : s.shared.flow.receive_window ≤ u32_max
    pub buffer : Content.IsValid s.shared.buffer

  -- A call that does nothing to the windows, the unread bytes and the queue.
  pub record Idle (s t : Stream C) : Type 0 where
    pub id : t.id ≡ s.id
    pub flag : t.flag ≡ s.flag
    pub queue : fifo.queued t.channel ≡ fifo.queued s.channel
    pub state : t.shared.state ≡ s.shared.state
    pub flow : t.shared.flow ≡ s.shared.flow
    pub buffer : t.shared.buffer ≡ s.shared.buffer

  idle_writes :
      (b : Bool) (w : List ℕ)
      → w ≡ []
      → ((b ≡ true) × (b ≡ true) × Unit {0}) ⊎ ((b ≡ false) × (w ≡ []))
  idle_writes true w e = inl (refl, refl, tt)
  idle_writes false w e = inr (refl, e)

  pub Idle-Effect : (s t : Stream C) → Fit s → Idle s t → Effect s t [] [] [] 0
  unfolding frames_of
  Idle-Effect s t f i = record {
    id = i.id;
    flag = λ p. f.flag (sym i.flag ∙ p);
    queue = i.queue ∙ sym (append-nil (fifo.queued s.channel));
    queues = nothing-Queues s.id;
    send = omega (arith, ap (λ (fc : FlowController). fc.send_window) i.flow);
    receive = omega (arith, ap (λ (fc : FlowController). fc.receive_window) i.flow);
    room = omega (arith, ap (λ (fc : FlowController). fc.receive_window) i.flow, f.room);
    unread = ap Content.content (sym i.buffer);
    buffer = rw i.buffer f.buffer;
    reads = ap can_read i.state;
    writes = rw i.state (idle_writes (can_write s.shared.state) [] refl);
  }

  pub same-Idle : (s : Stream C) → Idle s s
  same-Idle s = record {
    id = refl;
    flag = refl;
    queue = refl;
    state = refl;
    flow = refl;
    buffer = refl;
  }

  pub flush-Effect :
      (cx : Context) (s : Stream C) → Fit s → Effect s (poll_flush ch cx s).1 [] [] [] 0
  unfolding poll_flush
  flush-Effect cx s f = Idle-Effect s _ f (record {
    id = refl;
    flag = refl;
    queue = fifo.flush_keeps cx.waker s.channel;
    state = refl;
    flow = refl;
    buffer = refl;
  })

  abbrev pub Effects : Stream C → Stream C → List ℕ → List ℕ → Type 0
  Effects s t w g = (sent : List StreamCommand) × (n : ℕ) × Effect s t w g sent n

  module _ (cx : Context) (s : Stream C) (f : Fit s) where
    unfoldable pub moved : C → Stream C
    moved c = record s { channel = c }

    pub moved-Idle :
        (half : Half) (r : Poll (Result ℕ (Unit {0}))) (c : C)
        → ch.poll_ready half cx.waker s.channel ≡ (r, c)
        → Idle s (moved c)
    unfolding moved
    moved-Idle half r c e = record {
      id = refl;
      flag = refl;
      queue =
          ap (λ (p : Poll (Result ℕ (Unit {0})) × C). fifo.queued p.1) (sym e)
          ∙ fifo.ready_keeps half cx.waker s.channel;
      state = refl;
      flow = refl;
      buffer = refl;
    }
