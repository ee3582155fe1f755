-- ===== src/Session/Calls/Close.antt =====
-- What `poll_close` does, seen from the two ends.
use rust_yamux.Common.{
  ℕ, ◌≡◌, ◌≢◌, refl, Bool, true, false, [], ◌∷◌, arith, inl, inr, subst, Result, ok, err, Poll,
  ready, pending, panicked, stuck, ◌⊎◌,
}
use rust_yamux.Error.{write_zero}
use rust_yamux.Stream.State.{
  State, closed, send_closed, next_state, Flag, no_flag, ack_first, can_read, can_write,
}
use rust_yamux.Stream.Shared.{update_state}
use rust_yamux.Stream.Handle.{Channel, writing, Stream, Context, poll_close, close_stream}
use rust_yamux.Session.{Fifo}
use rust_yamux.Session.Sent.{close-Queues}
use rust_yamux.Session.Calls.{Effect, Effects, Fit, Idle, Idle-Effect, same-Idle, moved, moved-Idle}

send_closed_reads : (st : State) → can_read (next_state st send_closed) ≡ can_read st
unfolding can_read next_state
send_closed_reads st = ground arith

send_closed_writes : (st : State) → can_write (next_state st send_closed) ≡ false
unfolding can_write next_state
send_closed_writes st = ground arith

closed_or_not : (st : State) → (st ≡ closed) ⊎ (st ≢ closed)
closed_or_not st = ground arith

module _ {C : Type 0} (ch : Channel C) (fifo : Fifo ch) (cx : Context) (s : Stream C)
    (f : Fit ch fifo s) where
  abbrev Ends : Poll (Result ℕ (Unit {0})) × Stream C → Type 0
  Ends (r, t) = Effects ch fifo s t [] []

  -- Whether the command carries ACK, and the flag that is then owed.
  abbrev owes : Flag → Bool
  owes ack_first = true
  owes _ = false

  abbrev paid : Flag → Flag
  paid ack_first = no_flag
  paid x = x

  after_close : C → Stream C
  unfolding update_state
  after_close c = record s {
    flag = paid s.flag;
    channel = (ch.start_send writing (close_stream (owes s.flag)) c).1;
    shared = (update_state s.shared send_closed).1;
  }

  closing :
      (c : C)
      → ch.poll_ready writing cx.waker s.channel ≡ (ready (ok tt), c)
      → Effect ch fifo s (after_close c) [] [] (close_stream (owes s.flag) ∷ []) 0
  unfolding after_close update_state
  closing c e = record {
    id = refl;
    flag = λ p. ground (arith, f.flag);
    queue = (fifo.sends writing cx.waker (close_stream (owes s.flag)) s.channel c e).1;
    queues = close-Queues s.id (owes s.flag);
    send = omega arith;
    receive = omega arith;
    room = f.room;
    unread = refl;
    buffer = f.buffer;
    reads = send_closed_reads s.shared.state;
    writes = inr (send_closed_writes s.shared.state, refl);
  }

  idle_close : (r : Poll (Result ℕ (Unit {0}))) (t : Stream C) → Idle ch fifo s t → Ends (r, t)
  idle_close r t i = ([], 0, Idle-Effect ch fifo s t f i)

  pub close-Effects : Ends (poll_close ch cx s)
  unfolding poll_close moved after_close update_state
  close-Effects = elim (closed_or_not s.shared.state) [
    | inl k ↦
        let p : (ready (ok tt), s) ≡ poll_close ch cx s = ground arith in
        subst Ends p (idle_close (ready (ok tt)) s (same-Idle ch fifo s))
    | inr k ↦ go k (ch.poll_ready writing cx.waker s.channel) refl
  ]
    where
      not_ready :
          (r : Poll (Result ℕ (Unit {0}))) (c : C) (x : Poll (Result ℕ (Unit {0})))
          → ch.poll_ready writing cx.waker s.channel ≡ (x, c)
          → (r, moved ch fifo cx s f c) ≡ poll_close ch cx s
          → Ends (poll_close ch cx s)
      not_ready r c x e p =
          subst Ends p
            (idle_close r (moved ch fifo cx s f c) (moved-Idle ch fifo cx s f writing x c e))

      go :
          s.shared.state ≢ closed
          → (p : Poll (Result ℕ (Unit {0})) × C) → ch.poll_ready writing cx.waker s.channel ≡ p
          → Ends (poll_close ch cx s)
      go k (ready (ok u), c) e =
          let so = (fifo.sends writing cx.waker (close_stream (owes s.flag)) s.channel c e).0 in
          let p : (ready (ok tt), after_close c) ≡ poll_close ch cx s = ground (arith, so) in
          subst Ends p (close_stream (owes s.flag) ∷ [], 0, closing c e)
      go k (ready (err x), c) e = not_ready (ready (err write_zero)) c _ e (ground arith)
      go k (pending, c) e = not_ready pending c _ e (ground arith)
      go k (panicked, c) e = not_ready panicked c _ e (ground arith)
      go k (stuck, c) e = not_ready stuck c _ e (ground arith)
