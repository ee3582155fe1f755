-- ===== src/Session/Calls/Read.antt =====
-- What a read does, seen from the two ends: the window update first, then the bytes.
use rust_yamux.Common.{
  ℕ, ◌+◌, ◌≡◌, ◌≤◌, refl, true, [], ◌∷◌, Option, none, some, arith, inl, inr, subst, Result, ok,
  err, Poll, ready, pending, panicked, stuck, ◌>>=◌, ◌-◌, Bool-cases,
}
use rust_yamux.Common.Words.{u32_max, to_u32_or_max}
use rust_yamux.Config.{Config}
use rust_yamux.Chunks
use rust_yamux.FlowControl.{FlowController, next_window_update, tune, settle}
use rust_yamux.Frame.Header
use rust_yamux.Stream.State.{can_read, can_write, no_flag}
use rust_yamux.Stream.Handle.{
  Channel, updating, Stream, StreamCommand, Context, send_frame, add_flag, send_window_update,
}
use rust_yamux.Session.{Fifo}
use rust_yamux.Session.Sent.{credit-Queues}
use rust_yamux.Session.Calls.{Effect, Effects, Fit, Idle, Idle-Effect, same-Idle, moved, moved-Idle}

-- Whatever the update returns, it leaves the send window, and adds the grant to the receive window.
abbrev Grants : FlowController → Option (Option ℕ × ℕ × FlowController) → Type 0
Grants fc none = Unit {0}
Grants fc (some (none, acc, fc')) = fc' ≡ fc
Grants fc (some (some n, acc, fc')) =
    (fc'.receive_window ≡ fc.receive_window + n)
    × (fc'.receive_window ≤ u32_max)
    × (fc'.send_window ≡ fc.send_window)

abbrev TunesOnly : FlowController → Option (ℕ × ℕ × FlowController) → Type 0
TunesOnly fc none = Unit {0}
TunesOnly fc (some (n, acc, fc')) =
    (fc'.receive_window ≡ fc.receive_window) × (fc'.send_window ≡ fc.send_window)

tune-TunesOnly :
    (c : Config) (rtt : Option ℕ) (now acc : ℕ) (fc : FlowController) (b credit : ℕ)
    → TunesOnly fc (tune c rtt now acc fc b credit)
unfolding tune
tune-TunesOnly c rtt now acc fc b credit = ground arith

settle-Grants :
    (c : Config) (rtt : Option ℕ) (later : ℕ) (fc : FlowController) (b : ℕ)
    (t : Option (ℕ × ℕ × FlowController))
    → TunesOnly fc t
    → Grants fc (t >>= settle c rtt later b)
unfolding settle
settle-Grants c rtt later fc b none h = tt
settle-Grants c rtt later fc b (some (n, acc, fc')) h = ground arith

update-Grants :
    (c : Config) (rtt : Option ℕ) (now later acc : ℕ) (fc : FlowController) (b : ℕ)
    → Grants fc (next_window_update c rtt now later acc fc b)
unfolding next_window_update
update-Grants c rtt now later acc fc b = ground (
  arith,
  settle-Grants c rtt later fc b (tune c rtt now acc fc b n) (tune-TunesOnly c rtt now acc fc b n),
)
  where
    n : ℕ
    n = fc.max_receive_window - fc.receive_window - to_u32_or_max b

module _ {C : Type 0} (ch : Channel C) (fifo : Fifo ch) (cx : Context) (s : Stream C)
    (f : Fit ch fifo s) where
  abbrev Updates : Stream C → Type 0
  Updates t = Effects ch fifo s t [] []

  abbrev grant_command : ℕ → StreamCommand
  grant_command n =
      send_frame
        (record { header = add_flag s.flag (Header.window_update_header s.id n); body = [] })

  after_grant : C → ℕ → ℕ → FlowController → Stream C
  after_grant c n acc fc = record s {
    flag = no_flag;
    channel = (ch.start_send updating (grant_command n) c).1;
    counter = acc;
    shared = record (s.shared) { flow = fc };
  }

  granting :
      (c : C) (n acc : ℕ) (fc : FlowController)
      → ch.poll_ready updating cx.waker s.channel ≡ (ready (ok tt), c)
      → Grants s.shared.flow (some (some n, acc, fc))
      → Effect ch fifo s (after_grant c n acc fc) [] [] (grant_command n ∷ []) n
  unfolding after_grant
  granting c n acc fc e g = record {
    id = refl;
    flag = λ p. cc;
    queue = (fifo.sends updating cx.waker (grant_command n) s.channel c e).1;
    queues = (credit-Queues s.id s.flag n f.flag).0;
    send = omega (arith, g.2);
    receive = g.0;
    room = g.1;
    unread = refl;
    buffer = f.buffer;
    reads = refl;
    writes = elim (Bool-cases (can_write s.shared.state)) [
      | inl w ↦ inl (w, w, (credit-Queues s.id s.flag n f.flag).1)
      | inr w ↦ inr (w, refl)
    ];
  }

  unmoved_update : (t : Stream C) → Idle ch fifo s t → Updates t
  unmoved_update t i = ([], 0, Idle-Effect ch fifo s t f i)

  update_ready :
      (c : C)
      → can_read s.shared.state ≡ true
      → ch.poll_ready updating cx.waker s.channel ≡ (ready (ok tt), c)
      → (u : Option (Option ℕ × ℕ × FlowController))
      → next_window_update cx.config cx.rtt cx.now cx.later s.counter s.shared.flow
          (Chunks.len s.shared.buffer)
        ≡ u
      → Grants s.shared.flow u
      → Updates (send_window_update ch cx s).1
  unfolding send_window_update moved after_grant
  update_ready c r e none q g =
      let p : moved ch fifo cx s f c ≡ (send_window_update ch cx s).1 = ground arith in
      subst Updates p (unmoved_update _ (moved-Idle ch fifo cx s f updating _ c e))
  update_ready c r e (some (none, acc, fc)) q g =
      let i = moved-Idle ch fifo cx s f updating _ c e in
      let t = record s { channel = c; counter = acc; shared = record (s.shared) { flow = fc } } in
      let p : t ≡ (send_window_update ch cx s).1 = ground arith in
      subst Updates p (
        unmoved_update t (record {
          id = refl;
          flag = refl;
          queue = i.queue;
          state = refl;
          flow = g;
          buffer = refl;
        }))
  update_ready c r e (some (some n, acc, fc)) q g =
      let so = (fifo.sends updating cx.waker (grant_command n) s.channel c e).0 in
      let p : after_grant c n acc fc ≡ (send_window_update ch cx s).1 = ground (arith, so) in
      subst Updates p (grant_command n ∷ [], n, granting c n acc fc e g)

  pub update-Effects : Updates (send_window_update ch cx s).1
  unfolding send_window_update moved
  update-Effects = elim (Bool-cases (can_read s.shared.state)) [
    | inl r ↦ go r (ch.poll_ready updating cx.waker s.channel) refl
    | inr r ↦
        let p : s ≡ (send_window_update ch cx s).1 = ground arith in
        subst Updates p (unmoved_update s (same-Idle ch fifo s))
  ]
    where
      not_ready :
          (c : C) (x : Poll (Result ℕ (Unit {0})))
          → ch.poll_ready updating cx.waker s.channel ≡ (x, c)
          → moved ch fifo cx s f c ≡ (send_window_update ch cx s).1
          → Updates (send_window_update ch cx s).1
      not_ready c x e p =
          subst Updates p (unmoved_update _ (moved-Idle ch fifo cx s f updating x c e))

      go :
          can_read s.shared.state ≡ true
          → (p : Poll (Result ℕ (Unit {0})) × C) → ch.poll_ready updating cx.waker s.channel ≡ p
          → Updates (send_window_update ch cx s).1
      go r (ready (ok u), c) e = update_ready c r e _ refl (
          update-Grants cx.config cx.rtt cx.now cx.later s.counter s.shared.flow
            (Chunks.len s.shared.buffer))
      go r (ready (err x), c) e = not_ready c _ e (ground arith)
      go r (pending, c) e = not_ready c _ e (ground arith)
      go r (panicked, c) e = not_ready c _ e (ground arith)
      go r (stuck, c) e = not_ready c _ e (ground arith)
