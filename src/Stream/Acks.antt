-- ===== src/Stream/Acks.antt =====
-- How the acknowledgement of an inbound stream is sent and recorded, and how a stream is closed.
use rust_yamux.Common.{ℕ, ◌≤◌, ◌<◌, ◌≡◌, ◌⊎◌, true, false, List, arith, ok, err, ready, ◌≢◌}
use rust_yamux.Common.Words.{u32_max}
use rust_yamux.Error.{write_zero}
use rust_yamux.Stream.State.{closed, can_read, can_write, next_state, no_flag, ack_first}
use rust_yamux.Stream.Shared.{is_pending_ack, update_state}
use rust_yamux.Stream.Credit.{send_window_update-Keeps}
use rust_yamux.Stream.Writing.{Writes, state_after, poll_write_lem}
use rust_yamux.Stream.Handle.{
  Channel, Stream, Context, writing, send_window_update, poll_write, poll_close, close_stream,
}

module _ {C : Type 0} (ch : Channel C) (cx : Context) where
  -- A stream that owes its acknowledgement is acknowledged by the first data frame that it queues:
  -- the channel has room, the stream can be written and has credit.
  pub write_acknowledges :
      (s : Stream C) (c : C) (buf : List ℕ)
      → s.shared.flow.send_window ≤ u32_max
      → ch.poll_ready writing cx.waker s.channel ≡ (ready (ok tt), c)
      → s.flag ≡ ack_first
      → can_write s.shared.state ≡ true
      → 0 < s.shared.flow.send_window
      → is_pending_ack (poll_write ch cx buf s).1.shared ≡ false
  unfolding is_pending_ack state_after next_state can_write
  write_acknowledges s c buf u p f w k = ground (arith, poll_write_lem ch cx s c buf u p)

  -- A stream that counts as not acknowledged, and that owes no flag after `send_window_update`, as
  -- where the window update carried the ACK, still counts as not acknowledged after the write that
  -- follows. The channel has room, and the send window is a `u32`.
  pub window_update_does_not_acknowledge :
      (s : Stream C) (c : C) (buf : List ℕ)
      → is_pending_ack s.shared ≡ true
      → (send_window_update ch cx s).1.flag ≡ no_flag
      → (send_window_update ch cx s).1.shared.flow.send_window ≤ u32_max
      → ch.poll_ready writing cx.waker (send_window_update ch cx s).1.channel ≡ (ready (ok tt), c)
      → is_pending_ack (poll_write ch cx buf (send_window_update ch cx s).1).1.shared ≡ true
  unfolding is_pending_ack
  window_update_does_not_acknowledge s c buf a f u p =
      let k = send_window_update-Keeps ch cx s in
      later (send_window_update ch cx s).1 (rw k.state a) (poll_write_lem ch cx _ c buf u p) f
    where
      later :
          (t : Stream C)
          → is_pending_ack t.shared ≡ true
          → Writes ch cx t c buf (poll_write ch cx buf t)
          → t.flag ≡ no_flag
          → is_pending_ack (poll_write ch cx buf t).1.shared ≡ true
      later t b w g = unfold state_after in ground arith

  -- Closing a stream that is not closed yet queues a close command once the channel has room, with
  -- ACK exactly if the stream still owes it, and then it cannot be written any more and is closed if
  -- it could not be read. If the command cannot be queued the state stays as it was. A stream that is
  -- closed is left alone.
  pub poll_close_lem :
      (s : Stream C) (c : C)
      → ch.poll_ready writing cx.waker s.channel ≡ (ready (ok tt), c)
      → let out = poll_close ch cx s in
        (s.shared.state ≡ closed) × (out ≡ (ready (ok tt), s))
        ⊎ (s.shared.state ≢ closed)
          × (((out.0 ≡ ready (ok tt))
                × (can_write out.1.shared.state ≡ false)
                × (can_read out.1.shared.state ≡ can_read s.shared.state)
                × (out.1.flag ≢ ack_first)
                × ((s.flag ≡ ack_first)
                      × (out.1.channel ≡ (ch.start_send writing (close_stream true) c).1)
                    ⊎ (s.flag ≢ ack_first)
                      × (out.1.channel ≡ (ch.start_send writing (close_stream false) c).1)))
              ⊎ (out.0 ≡ ready (err write_zero)) × (out.1.shared ≡ s.shared))
  unfolding poll_close update_state next_state can_read can_write
  poll_close_lem s c p = ground arith
