-- ===== src/Connection/Steps.antt =====
-- `Active`: the steps of a connection, and what holds after any number of them.
use rust_yamux.Common.{ℕ, ◌+◌, ◌<◌, Bool, true, false, Option, none, some, length, arith}
use rust_yamux.Config.{default_credit}
use rust_yamux.Frame.{Frame}
use rust_yamux.Frame.Header.{is_client, is_server}
use rust_yamux.Connection.StreamMap.{get}
use rust_yamux.Connection.Active.{Active, close_at}
use rust_yamux.Connection.Opening.{
  parity, next_stream_id, open_outbound, make_new_outbound_stream, make_new_inbound_stream,
  allocate, poll_new_outbound,
}
use rust_yamux.Connection.Removal.{reset, finish_if, forget_if_closed, on_drop_stream}
use rust_yamux.Connection.Handlers.{
  on_frame, on_ping, on_ack, acknowledge, data_at, window_at, syn_by_data, syn_by_window,
  open_by_data, open_by_window,
}
use rust_yamux.Connection.Branches.{acked, acked_either, on_frame_cases}
use rust_yamux.Connection.Inv.{IsValid, Sound-remove, Sound-insert}

module _ {R T : Type 0} where
  pub on_drop_stream-IsValid :
      (id : ℕ) (c : Active R T) → IsValid c → IsValid (on_drop_stream id c).1
  unfolding on_drop_stream close_at
  on_drop_stream-IsValid id c h = ground (arith, Sound-remove id h)

  reset-IsValid : (id : ℕ) (c : Active R T) → IsValid c → IsValid (reset id c)
  unfolding reset close_at
  reset-IsValid id c h = ground (arith, Sound-remove id h)

  finish_if-IsValid : (b : Bool) (a : ℕ) (c : Active R T) → IsValid c → IsValid (finish_if b a c)
  unfolding finish_if
  finish_if-IsValid true a c h = h
  finish_if-IsValid false a c h = h

  forget_if_closed-IsValid :
      (b : Bool) (id a : ℕ) (c : Active R T) → IsValid c → IsValid (forget_if_closed b id a c)
  unfolding forget_if_closed
  forget_if_closed-IsValid false id a c h = h
  forget_if_closed-IsValid true id a c h = ground (arith, Sound-remove id h)

  acknowledge-IsValid : (x : Option ℕ) (c : Active R T) → IsValid c → IsValid (acknowledge x c)
  unfolding acknowledge
  acknowledge-IsValid none c h = h
  acknowledge-IsValid (some a) c h = h

  on_ack-IsValid : (id : ℕ) (c : Active R T) → IsValid c → IsValid (on_ack id c)
  unfolding on_ack
  on_ack-IsValid id c h = acknowledge-IsValid (get id c.streams) c h

  data_at-IsValid : (a : ℕ) (f : Frame) (c : Active R T) → IsValid c → IsValid (data_at a f c).1
  unfolding data_at finish_if forget_if_closed
  data_at-IsValid a f c h = ground (arith, Sound-remove f.header.stream_id h)

  window_at-IsValid : (a : ℕ) (f : Frame) (c : Active R T) → IsValid c → IsValid (window_at a f c).1
  unfolding window_at finish_if forget_if_closed
  window_at-IsValid a f c h = ground (arith, Sound-remove f.header.stream_id h)

  on_ping-IsValid :
      (now later : ℕ) (f : Frame) (c : Active R T) → IsValid c → IsValid (on_ping now later f c).1
  unfolding on_ping
  on_ping-IsValid now later f c h = ground arith

module _ {R T : Type 0} (push : ℕ → ℕ → R → R) where
  open_by_data-IsValid :
      (now : ℕ) (f : Frame) (c : Active R T)
      → length c.streams < c.config.max_num_streams
      → IsValid c
      → IsValid (open_by_data push now f c).1
  unfolding open_by_data make_new_inbound_stream allocate finish_if
  open_by_data-IsValid now f c l h = ground (arith, Sound-insert f.header.stream_id l h)

  open_by_window-IsValid :
      (now : ℕ) (f : Frame) (credit : ℕ) (c : Active R T)
      → length c.streams < c.config.max_num_streams
      → IsValid c
      → IsValid (open_by_window push now f credit c).1
  unfolding open_by_window make_new_inbound_stream allocate finish_if
  open_by_window-IsValid now f credit c l h = ground (arith, Sound-insert f.header.stream_id l h)

  open_outbound-IsValid :
      (now : ℕ) (c : Active R T)
      → length c.streams < c.config.max_num_streams
      → IsValid c
      → IsValid (open_outbound push now (next_stream_id c)).1
  unfolding open_outbound next_stream_id make_new_outbound_stream allocate parity is_client
      is_server
  open_outbound-IsValid now c l h = ground (arith, Sound-insert c.next_id l h)

  syn_by_data-IsValid :
      (now : ℕ) (f : Frame) (c : Active R T) → IsValid c → IsValid (syn_by_data push now f c).1
  unfolding syn_by_data
  syn_by_data-IsValid now f c h = ground (arith, h.within, h, open_by_data-IsValid now f c)

  syn_by_window-IsValid :
      (now : ℕ) (f : Frame) (c : Active R T) → IsValid c → IsValid (syn_by_window push now f c).1
  unfolding syn_by_window
  syn_by_window-IsValid now f c h =
      ground (arith, h.within, h, open_by_window-IsValid now f (f.header.length + default_credit) c)

  pub acked-IsValid : (f : Frame) (c : Active R T) → IsValid c → IsValid (acked f c)
  acked-IsValid f c h = acked_either IsValid f c h (on_ack-IsValid f.header.stream_id c h)

  pub on_frame-IsValid :
      (now later : ℕ) (f : Frame) (c : Active R T)
      → IsValid c
      → IsValid (on_frame push now later f c).1
  on_frame-IsValid now later f c h =
      let k = acked-IsValid f c h in
      on_frame_cases IsValid f push now later c (record {
        same = k;
        rst = reset-IsValid f.header.stream_id (acked f c) k;
        syn_data = syn_by_data-IsValid now f (acked f c) k;
        syn_window = syn_by_window-IsValid now f (acked f c) k;
        data_frame = λ a e. data_at-IsValid a f (acked f c) k;
        window_update = λ a e. window_at-IsValid a f (acked f c) k;
        ping = on_ping-IsValid now later f (acked f c) k;
      })

  pub poll_new_outbound-IsValid :
      (waker now : ℕ) (c : Active R T) → IsValid c → IsValid (poll_new_outbound push waker now c).1
  unfolding poll_new_outbound
  poll_new_outbound-IsValid waker now c h = ground (arith, h, open_outbound-IsValid now c)
