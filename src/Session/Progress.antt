-- ===== src/Session/Progress.antt =====
-- A writer that has run out of credit gets more.
use rust_yamux.Common.{
  ℕ, ◌+◌, ◌<◌, ◌≡◌, not, ◌&&◌, Bool, true, false, Option, none, some, [], ok, ready, arith, length,
  sym, ap, subst, ◌∙◌,
}
use rust_yamux.Chunks
use rust_yamux.Chunks.Content
use rust_yamux.Chunks.Content.{refines_bytes}
use rust_yamux.Stream.Shared.{Shared}
use rust_yamux.FlowControl.{FlowController}
use rust_yamux.FlowControl.Inv.{Inv, Updated}
use rust_yamux.Stream.State.{can_read, can_write}
use rust_yamux.Stream.Handle.{Channel, Stream, Context, updating, send_window_update}
use rust_yamux.Stream.Reader.{poll_read, poll_next, read_buffer, take_packet}
use rust_yamux.Stream.Credit.{send_window_update_lem, Sends}
use rust_yamux.Session.{Fifo, Call, call, run, stream_of}
use rust_yamux.Session.Flight.{bodies, credits}
use rust_yamux.Session.Dialled.{Begun, Begun-Sound}
use rust_yamux.Session.Link.{then_step, flipped, called, Link, flip, ahead, Reach}
use rust_yamux.Session.Steps.{Reach-Sound, write_same}

-- The call reads.
unfoldable pub is_read : Call → Bool
is_read (Call.read want) = true
is_read Call.next_packet = true
is_read _ = false

module _ {C : Type 0} (ch : Channel C) (cx : Context) (s : Stream C)
    (allowed : (not cx.config.read_after_close && ch.is_closed s.channel) ≡ false) where
  read_flow :
      (c : Call)
      → is_read c ≡ true
      → (run ch cx c s).0.shared.flow ≡ (send_window_update ch cx s).1.shared.flow
  unfolding run is_read poll_read poll_next read_buffer take_packet
  read_flow c e = ground (arith, allowed)

module _ {C : Type 0} (ch : Channel C) (cx : Context) (s : Stream C) (c : C)
    (inv : Inv cx.config cx.rtt s.counter s.shared.flow (Chunks.len s.shared.buffer))
    (reads : can_read s.shared.state ≡ true)
    (room : ch.poll_ready updating cx.waker s.channel ≡ (ready (ok tt), c))
    (used_up : s.shared.flow.receive_window + Chunks.len s.shared.buffer ≡ 0) where
  granted : 0 < (send_window_update ch cx s).1.shared.flow.receive_window
  granted = let (u, h, t) = send_window_update_lem ch cx s c inv reads room in go u h t
    where
      go :
          (u : Option ℕ × ℕ × FlowController)
          → Updated cx.config cx.rtt cx.later s.counter s.shared.flow (Chunks.len s.shared.buffer) u
          → Sends ch cx s c u (send_window_update ch cx s)
          → 0 < (send_window_update ch cx s).1.shared.flow.receive_window
      go (none, acc, fc) h t = absurd (ground (arith, inv, h))
      go (some n, acc, fc) h (f, g, p, q) = ground (arith, inv, h, q)

module _ {R T C : Type 0} (ch : Channel C) (cx : Context) (c : Call) (l : Link R T C) where
  -- The link after the call of the right end.
  abbrev pub read_right : Link R T C
  read_right = record l { right = call ch cx c l.right }

  -- The left end waits for credit, nothing for it is on its way, and the right end has read all and
  -- calls to read once more.
  pub record Starved (fifo : Fifo ch) (d : C) : Type 0 where
    pub writable : can_write (l.left.conn.heap l.left.handle.address).state ≡ true
    pub no_window : (l.left.conn.heap l.left.handle.address).flow.send_window ≡ 0
    pub no_bytes : bodies (ahead ch fifo l) ≡ []
    pub no_credit : credits (ahead ch fifo (flip l)) ≡ 0
    pub all_read : Content.content (l.right.conn.heap l.right.handle.address).buffer ≡ []
    pub inv :
        Inv cx.config cx.rtt l.right.conn.counter (l.right.conn.heap l.right.handle.address).flow 0
    pub allowed : (not cx.config.read_after_close && ch.is_closed l.right.channel) ≡ false
    pub room : ch.poll_ready updating cx.waker l.right.channel ≡ (ready (ok tt), d)
    pub reads : is_read c ≡ true

module _ {R T C : Type 0} (ch : Channel C) (fifo : Fifo ch) (push : ℕ → ℕ → R → R)
    (start l : Link R T C) (o : Begun ch fifo push start) (r : Reach ch fifo push start l)
    (cx : Context) (c : Call) where
  read_right-Reach : Reach ch fifo push start (read_right ch cx c l)
  read_right-Reach =
      then_step l (read_right ch cx c l) r (flipped (flip l) _ (called cx c (flip l)))

  -- A writer that waits for credit is not left waiting. In the runs of a stream from its opening, where the left
  -- end can write but has no send window left, no data of it and no credit for it is on its way, and
  -- the right end has read all bytes: the next read of the right end, that the channel has room for,
  -- puts credit of more than zero on its way. The flow controller of the right end meets its
  -- invariant.
  pub released :
      (d : C) → Starved ch cx c l fifo d → 0 < credits (ahead ch fifo (flip (read_right ch cx c l)))
  unfolding call
  released d v =
      let a = Reach-Sound ch fifo push start l (Begun-Sound ch fifo push start o) r in
      let b =
        Reach-Sound ch fifo push start (read_right ch cx c l) (Begun-Sound ch fifo push start o)
          read_right-Reach in
      let s = stream_of l.right in
      let e : Chunks.len s.shared.buffer ≡ 0 =
        (refines_bytes s.shared.buffer [] a.0.buffer).4 ∙ ap length v.all_read in
      let g =
        granted ch cx s d (subst (Inv cx.config cx.rtt s.counter s.shared.flow) (sym e) v.inv)
          (a.0.unfinished v.writable).3 v.room
          (omega
            (arith, a.0.exact v.writable, v.no_window, ap length v.no_bytes, v.no_credit, e)) in
      let k = write_same l.right.conn.heap l.right.handle.address (run ch cx c s).0.shared in
      omega (
        arith,
        b.0.exact v.writable,
        v.no_window,
        ap length v.no_bytes,
        g,
        ap (λ (x : FlowController). x.receive_window) (read_flow ch cx s v.allowed c v.reads),
        ap (λ (x : Shared). x.flow.receive_window) k,
      )
