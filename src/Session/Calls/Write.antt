-- ===== src/Session/Calls/Write.antt =====
-- What a write does, seen from the two ends.
use rust_yamux.Common.{
  ℕ, ◌-◌, ◌≡◌, refl, true, List, [], ◌∷◌, arith, inl, inr, sym, ◌∙◌, take, Result, ok, err, Poll,
  ready, pending, panicked, stuck, subst, length-take,
}
use rust_yamux.Error.{write_zero}
use rust_yamux.Stream.State.{State, next_state, Flag, no_flag, can_read, can_write}
use rust_yamux.Stream.Handle.{Channel, Stream, Context, poll_write, writing, send_frame}
use rust_yamux.Stream.Writing.{Writes, poll_write_lem, accepted, data_of, state_after}
use rust_yamux.Session.Sent.{data-Queues}
use rust_yamux.Session.{Fifo, reported_written}
use rust_yamux.Session.Calls.{Effect, Effects, Fit, Idle, Idle-Effect, moved, moved-Idle}

state_after_reads : (flag : Flag) (st : State) → can_read (state_after flag st) ≡ can_read st
unfolding can_read state_after next_state
state_after_reads flag st = ground arith

state_after_writes : (flag : Flag) (st : State) → can_write (state_after flag st) ≡ can_write st
unfolding can_write state_after next_state
state_after_writes flag st = ground arith

module _ {C : Type 0} (ch : Channel C) (fifo : Fifo ch) (cx : Context) (s : Stream C)
    (f : Fit ch fifo s) (buf : List ℕ) where
  abbrev Written : Poll (Result ℕ ℕ) × Stream C → Type 0
  Written (r, t) = Effects ch fifo s t (reported_written buf r) []

  unmoved_write :
      (r : Poll (Result ℕ ℕ)) (t : Stream C)
      → reported_written buf r ≡ []
      → Idle ch fifo s t
      → Written (r, t)
  unmoved_write r t p i = ([], 0, rw p (Idle-Effect ch fifo s t f i))

  after_write : C → Stream C
  after_write c = record s {
    flag = no_flag;
    channel = (ch.start_send writing (send_frame (data_of ch cx s buf)) c).1;
    shared = record (s.shared) {
      state = state_after s.flag s.shared.state;
      flow = record (s.shared.flow) {
        send_window = s.shared.flow.send_window - accepted ch cx s buf;
      };
    };
  }

  sent_data :
      (c : C)
      → ch.poll_ready writing cx.waker s.channel ≡ (ready (ok tt), c)
      → can_write s.shared.state ≡ true
      → Effect ch fifo s
          (after_write c)
          (take (accepted ch cx s buf) buf)
          []
          (send_frame (data_of ch cx s buf) ∷ [])
          0
  unfolding after_write
  sent_data c e w = record {
    id = refl;
    flag = λ p. cc;
    queue = (fifo.sends writing cx.waker (send_frame (data_of ch cx s buf)) s.channel c e).1;
    queues =
        (data-Queues s.id s.flag (accepted ch cx s buf) (take (accepted ch cx s buf) buf) f.flag).0;
    send = omega (arith, length-take (accepted ch cx s buf) buf);
    receive = omega arith;
    room = f.room;
    unread = refl;
    buffer = f.buffer;
    reads = state_after_reads s.flag s.shared.state;
    writes = inl (
      w,
      state_after_writes s.flag s.shared.state ∙ w,
      (data-Queues s.id s.flag (accepted ch cx s buf) (take (accepted ch cx s buf) buf) f.flag).1,
    );
  }

  sent_write :
      (c : C) (r : Poll (Result ℕ ℕ)) (t : Stream C)
      → ch.poll_ready writing cx.waker s.channel ≡ (ready (ok tt), c)
      → Writes ch cx s c buf (r, t)
      → Written (r, t)
  unfolding reported_written moved after_write
  sent_write c r t e (inl (w, p)) =
      subst Written (sym p)
        (unmoved_write (ready (err write_zero)) _ refl (moved-Idle ch fifo cx s f writing _ c e))
  sent_write c r t e (inr (inl (w, z, p))) =
      let i = moved-Idle ch fifo cx s f writing _ c e in
      subst Written (sym p) (
        unmoved_write pending _ refl (record {
          id = refl;
          flag = refl;
          queue = i.queue;
          state = refl;
          flow = refl;
          buffer = refl;
        }))
  sent_write c r t e (inr (inr (w, z, p, q))) =
      let so = (fifo.sends writing cx.waker (send_frame (data_of ch cx s buf)) s.channel c e).0 in
      let r' : r ≡ ready (ok (accepted ch cx s buf)) = ground (arith, p, so) in
      rw (r', q) (send_frame (data_of ch cx s buf) ∷ [], 0, sent_data c e w)

  pub write-Effects : Written (poll_write ch cx buf s)
  unfolding poll_write reported_written moved
  write-Effects = go (ch.poll_ready writing cx.waker s.channel) refl
    where
      go :
          (p : Poll (Result ℕ (Unit {0})) × C)
          → ch.poll_ready writing cx.waker s.channel ≡ p
          → Written (poll_write ch cx buf s)
      go (ready (ok u), c) e =
          sent_write c (poll_write ch cx buf s).0 (poll_write ch cx buf s).1 e
            (poll_write_lem ch cx s c buf f.send e)
      go (ready (err x), c) e =
          let p : (ready (err write_zero), moved ch fifo cx s f c) ≡ poll_write ch cx buf s =
            ground arith in
          subst Written p (
            unmoved_write (ready (err write_zero)) _ refl (moved-Idle ch fifo cx s f writing _ c e))
      go (pending, c) e =
          let p : (pending, moved ch fifo cx s f c) ≡ poll_write ch cx buf s = ground arith in
          subst Written p (unmoved_write (pending) _ refl (moved-Idle ch fifo cx s f writing _ c e))
      go (panicked, c) e =
          let p : (panicked, moved ch fifo cx s f c) ≡ poll_write ch cx buf s = ground arith in
          subst Written p
            (unmoved_write (panicked) _ refl (moved-Idle ch fifo cx s f writing _ c e))
      go (stuck, c) e =
          let p : (stuck, moved ch fifo cx s f c) ≡ poll_write ch cx buf s = ground arith in
          subst Written p (unmoved_write (stuck) _ refl (moved-Idle ch fifo cx s f writing _ c e))
