-- ===== src/Connection/Backlog/Steps.antt =====
-- `Active`: each step keeps the backlog bounded.
use rust_yamux.Common.{ℕ, refl, arith}
use rust_yamux.Frame.{Frame}
use rust_yamux.Frame.Header.{is_client, is_server}
use rust_yamux.Stream.State.{next_state, is_pending}
use rust_yamux.FlowControl
use rust_yamux.Stream.Shared
use rust_yamux.Stream.Shared.{Shared, is_pending_ack, update_state}
use rust_yamux.Connection.Active.{Active, close_at}
use rust_yamux.Connection.Opening.{
  parity, next_stream_id, open_outbound, make_new_outbound_stream, make_new_inbound_stream,
  allocate, poll_new_outbound,
}
use rust_yamux.Connection.Removal.{reset, finish_if, forget_if_closed, on_drop_stream}
use rust_yamux.Connection.Handlers.{
  on_frame, on_ping, on_ack, acknowledge, data_at, window_at, syn_by_data, syn_by_window,
  open_by_data, open_by_window, is_valid_remote_id,
}
use rust_yamux.Connection.Branches.{acked, acked_either, on_frame_cases}
use rust_yamux.Connection.Backlog.{
  Opens, Opens-Bounded, KeepsBacklog, KeepsBacklog-Bounded, Bounded,
}

module _ {R T : Type 0} where
  same-KeepsBacklog : (id : ℕ) (c : Active R T) → KeepsBacklog id c c
  same-KeepsBacklog id c = record { mode = refl; calms = λ a l p. p; streams = ground arith }

  drop-KeepsBacklog : (id : ℕ) (c : Active R T) → KeepsBacklog id c (on_drop_stream id c).1
  unfolding on_drop_stream close_at is_pending_ack is_pending next_state
  drop-KeepsBacklog id c = record {
    mode = ground arith;
    calms = λ a l. ground arith;
    streams = ground arith;
  }

  reset-KeepsBacklog : (id : ℕ) (c : Active R T) → KeepsBacklog id c (reset id c)
  unfolding reset close_at is_pending_ack is_pending next_state
  reset-KeepsBacklog id c = record {
    mode = ground arith;
    calms = λ a l. ground arith;
    streams = ground arith;
  }

  ack-KeepsBacklog : (id : ℕ) (c : Active R T) → KeepsBacklog id c (on_ack id c)
  unfolding on_ack acknowledge is_pending_ack is_pending next_state
  ack-KeepsBacklog id c = record {
    mode = ground arith;
    calms = λ a l. ground arith;
    streams = ground arith;
  }

  data_at-KeepsBacklog :
      (a : ℕ) (f : Frame) (c : Active R T) → KeepsBacklog f.header.stream_id c (data_at a f c).1
  unfolding data_at Shared.consume_receive_window FlowControl.consume_receive_window update_state
      finish_if forget_if_closed is_pending_ack is_pending next_state
  data_at-KeepsBacklog a f c = record {
    mode = ground arith;
    calms = λ b l. ground arith;
    streams = ground arith;
  }

  window_at-KeepsBacklog :
      (a : ℕ) (f : Frame) (c : Active R T) → KeepsBacklog f.header.stream_id c (window_at a f c).1
  unfolding window_at Shared.increase_send_window_by FlowControl.increase_send_window_by
      update_state finish_if forget_if_closed is_pending_ack is_pending next_state
  window_at-KeepsBacklog a f c = record {
    mode = ground arith;
    calms = λ b l. ground arith;
    streams = ground arith;
  }

  ping-KeepsBacklog :
      (now later : ℕ) (f : Frame) (c : Active R T)
      → KeepsBacklog f.header.stream_id c (on_ping now later f c).1
  unfolding on_ping
  ping-KeepsBacklog now later f c = record {
    mode = ground arith;
    calms = λ b l. ground arith;
    streams = ground arith;
  }

module _ {R T : Type 0} (push : ℕ → ℕ → R → R) where
  syn_by_data-KeepsBacklog :
      (now : ℕ) (f : Frame) (c : Active R T)
      → KeepsBacklog f.header.stream_id c (syn_by_data push now f c).1
  unfolding syn_by_data open_by_data Shared.consume_receive_window
      FlowControl.consume_receive_window update_state Shared.new FlowControl.new
      make_new_inbound_stream allocate finish_if is_pending_ack is_pending next_state
      is_valid_remote_id parity is_client is_server
  syn_by_data-KeepsBacklog now f c = record {
    mode = ground arith;
    calms = λ b l. ground arith;
    streams = ground arith;
  }

  syn_by_window-KeepsBacklog :
      (now : ℕ) (f : Frame) (c : Active R T)
      → KeepsBacklog f.header.stream_id c (syn_by_window push now f c).1
  unfolding syn_by_window open_by_window make_new_inbound_stream allocate finish_if is_pending_ack
      is_pending next_state is_valid_remote_id parity is_client is_server
  syn_by_window-KeepsBacklog now f c = record {
    mode = ground arith;
    calms = λ b l. ground arith;
    streams = ground arith;
  }

  pub on_frame-Bounded :
      (now later : ℕ) (f : Frame) (c : Active R T)
      → Bounded c
      → Bounded (on_frame push now later f c).1
  on_frame-Bounded now later f c b =
      let id = f.header.stream_id in
      let c' = acked f c in
      let b' : Bounded c' =
        acked_either Bounded f c b (KeepsBacklog-Bounded id c _ (ack-KeepsBacklog id c) b) in
      let keep : (d : Active R T) → KeepsBacklog id c' d → Bounded d =
        λ d k. KeepsBacklog-Bounded id c' d k b' in
      on_frame_cases Bounded f push now later c (record {
        same = b';
        rst = keep _ (reset-KeepsBacklog id c');
        syn_data = keep _ (syn_by_data-KeepsBacklog now f c');
        syn_window = keep _ (syn_by_window-KeepsBacklog now f c');
        data_frame = λ a e. keep _ (data_at-KeepsBacklog a f c');
        window_update = λ a e. keep _ (window_at-KeepsBacklog a f c');
        ping = keep _ (ping-KeepsBacklog now later f c');
      })

  pub on_drop_stream-Bounded :
      (id : ℕ) (c : Active R T) → Bounded c → Bounded (on_drop_stream id c).1
  on_drop_stream-Bounded id c b =
      KeepsBacklog-Bounded id c (on_drop_stream id c).1 (drop-KeepsBacklog id c) b

  outbound-Opens :
      (waker now : ℕ) (c : Active R T) → Opens c.next_id c (poll_new_outbound push waker now c).1
  unfolding poll_new_outbound open_outbound next_stream_id make_new_outbound_stream allocate
      is_pending_ack
  outbound-Opens waker now c = record {
    mode = ground arith;
    calms = λ a l. ground arith;
    streams = ground arith;
  }

  pub outbound-Bounded :
      (waker now : ℕ) (c : Active R T) → Bounded c → Bounded (poll_new_outbound push waker now c).1
  outbound-Bounded waker now c b = Opens-Bounded c.next_id c _ (outbound-Opens waker now c) b
