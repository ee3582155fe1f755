-- ===== src/Stream/Credit.antt =====
-- The window updates that a reading stream sends.
use rust_yamux.Common.{
  ℕ, ◌≡◌, true, Option, none, some, arith, Result, ok, err, Poll, ready, [], Returns-some, refl,
}
use rust_yamux.Chunks
use rust_yamux.Error.{write_zero}
use rust_yamux.Frame
use rust_yamux.Frame.Header
use rust_yamux.FlowControl
use rust_yamux.FlowControl.{FlowController}
use rust_yamux.FlowControl.Inv.{Inv, Updated, next_window_update-Updated}
use rust_yamux.Stream.State.{can_read, no_flag}
use rust_yamux.Stream.Handle.{
  Channel, Stream, Context, updating, send_window_update, send_frame, add_flag,
}

module _ {C : Type 0} (ch : Channel C) (cx : Context) where
  -- A window update touches the channel, the flag, the receiving windows and the shared counter.
  pub record Keeps (s t : Stream C) : Type 0 where
    pub id : t.id ≡ s.id
    pub state : t.shared.state ≡ s.shared.state
    pub buffer : t.shared.buffer ≡ s.shared.buffer
    pub reader : t.shared.reader ≡ s.shared.reader
    pub writer : t.shared.writer ≡ s.shared.writer

  pub send_window_update-Keeps : (s : Stream C) → Keeps s (send_window_update ch cx s).1
  unfolding send_window_update
  send_window_update-Keeps s = ground arith

  -- The frame of a grant of `credit`, with the flag that the stream owes.
  abbrev pub GrantFrame : Stream C → ℕ → Frame.Frame → Type 0
  GrantFrame s credit f =
      (f.header ≡ add_flag s.flag (Header.window_update_header s.id credit)) × (f.body ≡ [])

  -- What the call does with the answer of the flow controller, once the channel `c` has room.
  abbrev pub Sends :
      Stream C → C → Option ℕ × ℕ × FlowController → Poll (Result ℕ (Unit {0})) × Stream C → Type 0
  Sends s c (none, acc, fc) out = out ≡ (
    ready (ok tt),
    record s { channel = c; counter = acc; shared = record (s.shared) { flow = fc } },
  )
  Sends s c (some credit, acc, fc) out =
      (f : Frame.Frame) × GrantFrame s credit f
      × (out.0 ≡ (elim (ch.start_send updating (send_frame f) c).0 [
        | ok _ ↦ ready (ok tt)
        | err _ ↦ ready (err write_zero)
      ]))
      × (out.1 ≡ record s {
        flag = no_flag;
        channel = (ch.start_send updating (send_frame f) c).1;
        counter = acc;
        shared = record (s.shared) { flow = fc };
      })

  sends :
      (s : Stream C) (c : C) (u : Option ℕ × ℕ × FlowController)
      → can_read s.shared.state ≡ true
      → ch.poll_ready updating cx.waker s.channel ≡ (ready (ok tt), c)
      → FlowControl.next_window_update cx.config cx.rtt cx.now cx.later s.counter s.shared.flow
          (Chunks.len s.shared.buffer)
        ≡ some u
      → Sends s c u (send_window_update ch cx s)
  unfolding send_window_update
  sends s c (none, acc, fc) r p e = ground arith
  sends s c (some credit, acc, fc) r p e = (
    record { header = add_flag s.flag (Header.window_update_header s.id credit); body = [] },
    (refl, refl),
    ground arith,
    ground arith,
  )

  -- While the stream can be read and the channel has room, a window update is sent exactly if the
  -- flow controller grants credit: the frame carries that credit and the flag that the stream owes,
  -- which it owes no more; else nothing is sent. The windows change as `Updated` says, and nothing
  -- panics. The flow controller meets its invariant.
  pub send_window_update_lem :
      (s : Stream C) (c : C)
      → Inv cx.config cx.rtt s.counter s.shared.flow (Chunks.len s.shared.buffer)
      → can_read s.shared.state ≡ true
      → ch.poll_ready updating cx.waker s.channel ≡ (ready (ok tt), c)
      → (u : Option ℕ × ℕ × FlowController) × Updated cx.config cx.rtt cx.later s.counter
          s.shared.flow
          (Chunks.len s.shared.buffer)
          u
        × Sends s c u (send_window_update ch cx s)
  send_window_update_lem s c v r p =
      let (u, e, h) = Returns-some _ _ (
        next_window_update-Updated cx.config cx.rtt cx.now cx.later s.counter s.shared.flow
          (Chunks.len s.shared.buffer) v) in
      (u, h, sends s c u r p e)
