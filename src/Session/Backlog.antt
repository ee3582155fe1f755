-- ===== src/Session/Backlog.antt =====
-- The ACK backlog of a connection whose users hold handles.
use rust_yamux.Common.{ℕ, ◌≡◌, ◌≤◌, refl, true, arith}
use rust_yamux.Config.{Config, max_ack_backlog}
use rust_yamux.Frame.{Frame}
use rust_yamux.FlowControl
use rust_yamux.Stream.State.{Flag, is_pending, next_state}
use rust_yamux.Stream.Shared
use rust_yamux.Stream.Shared.{Shared, is_pending_ack, update_state}
use rust_yamux.Stream.Handle.{
  Channel, Context, Stream, poll_write, write_some, write_body, poll_flush, poll_close,
}
use rust_yamux.Stream.Reader.{poll_read, poll_next, read_buffer, take_packet}
use rust_yamux.Stream.Credit.{send_window_update-Keeps}
use rust_yamux.Connection.Active.{Mode, Active, new, set_shared}
use rust_yamux.Connection.Opening.{ack_backlog, poll_new_outbound, pending_acks}
use rust_yamux.Connection.Removal.{on_drop_stream}
use rust_yamux.Connection.Handlers.{on_frame}
use rust_yamux.Connection.Backlog.{Bounded, KeepsBacklog-Bounded, KeepsBacklog}
use rust_yamux.Connection.Backlog.Steps.{on_frame-Bounded, on_drop_stream-Bounded, outbound-Bounded}
use rust_yamux.Session.{Call, run}

module _ {C : Type 0} (ch : Channel C) (cx : Context) where
  -- No call makes a stream wait for an acknowledgement.
  run_calms :
      (c : Call) (s : Stream C)
      → is_pending_ack (run ch cx c s).0.shared ≡ true
      → is_pending_ack s.shared ≡ true
  unfolding run is_pending_ack is_pending next_state
  run_calms (Call.write buf) s =
      unfold poll_write write_some write_body Shared.consume_send_window
        FlowControl.consume_send_window update_state in
      ground arith
  run_calms (Call.read want) s =
      unfold poll_read read_buffer in ground (arith, send_window_update-Keeps ch cx s)
  run_calms Call.next_packet s =
      unfold poll_next take_packet in ground (arith, send_window_update-Keeps ch cx s)
  run_calms Call.flush s = unfold poll_flush in ground arith
  run_calms Call.close s = unfold poll_close update_state in ground arith

module _ {R T C : Type 0} (push : ℕ → ℕ → R → R) (ch : Channel C) where
  -- A frame arrives, a stream is asked for, a handle is dropped, or a handle is used.
  pub data Step : Active R T → Active R T → Type 0 where
    framed : (now later : ℕ) (f : Frame) (c : Active R T) → Step c (on_frame push now later f c).1
    opened : (waker now : ℕ) (c : Active R T) → Step c (poll_new_outbound push waker now c).1
    dropped : (id : ℕ) (c : Active R T) → Step c (on_drop_stream id c).1
    used :
        (cx : Context) (call : Call) (a : ℕ) (id counter : ℕ) (flag : Flag) (channel : C)
        (c : Active R T)
        → Step c (
            set_shared a
              (run ch cx call (record {
                id = id;
                flag = flag;
                channel = channel;
                shared = c.heap a;
                counter = counter;
              })).0.shared
              c)

  pub data Reach (start : Active R T) : Active R T → Type 0 where
    here : Reach start start
    then_step : (c d : Active R T) → Reach start c → Step c d → Reach start d

  used-KeepsBacklog :
      (a : ℕ) (s : Shared) (c : Active R T)
      → (is_pending_ack s ≡ true → is_pending_ack (c.heap a) ≡ true)
      → KeepsBacklog 0 c (set_shared a s c)
  used-KeepsBacklog a s c h = record {
    mode = refl;
    calms = λ b l. ground (arith, h);
    streams = ground arith;
  }

  Step-Bounded : (c d : Active R T) → Step c d → Bounded c → Bounded d
  Step-Bounded c _ (framed now later f _) b = on_frame-Bounded push now later f c b
  Step-Bounded c _ (opened waker now _) b = outbound-Bounded push waker now c b
  Step-Bounded c _ (dropped id _) b = on_drop_stream-Bounded push id c b
  Step-Bounded c _ (used cx call a id counter flag channel _) b =
      KeepsBacklog-Bounded 0 c _ (used-KeepsBacklog a _ c (run_calms ch cx call _)) b

  run-Bounded : (start c : Active R T) → Bounded start → Reach start c → Bounded c
  run-Bounded start c b here = b
  run-Bounded start _ b (then_step c d r s) = Step-Bounded c d s (run-Bounded start c b r)

  -- A connection that is reached from a new one, over any sequence of frames, of streams that are
  -- asked for, of dropped handles and of calls on handles, never has more than 256 streams of its own
  -- that the remote has not acknowledged.
  pub backlog_bounded :
      (receivers : R) (socket : T) (config : Config) (mode : Mode) (now : ℕ) (heap : ℕ → Shared)
      (c : Active R T)
      → Reach (new receivers socket config mode now heap) c
      → ack_backlog c ≤ max_ack_backlog
  unfolding new ack_backlog pending_acks
  backlog_bounded receivers socket config mode now heap c r =
      (run-Bounded _ c (record { backlog = omega arith; used = tt }) r).backlog
