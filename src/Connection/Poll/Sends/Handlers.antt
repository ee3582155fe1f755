-- ===== src/Connection/Poll/Sends/Handlers.antt =====
-- `Active`: the frames that wait in a connection, and what a frame that comes in or the end of a stream adds.
use rust_yamux.Common.{ℕ, some, Bool, arith, Option, ◌<◌, true, none, ◌^◌, false}
use rust_yamux.Frame.{Frame}
use rust_yamux.Connection.StreamMap.{remove, get}
use rust_yamux.Connection.Active.{Active, close_at}
use rust_yamux.Connection.Opening.{make_new_inbound_stream, allocate}
use rust_yamux.Connection.Removal.{reset, finish_if, forget_if_closed, on_drop_stream, farewell}
use rust_yamux.Connection.Handlers.{
  on_frame, on_ping, on_ack, acknowledge, data_at, window_at, syn_by_data, syn_by_window,
  open_by_data, open_by_window,
}
use rust_yamux.Connection.Branches.{acked, acked_either, on_frame_cases}
use rust_yamux.Connection.Poll.Sends.{MayCarry, farewell-Carried, handle_pong-Answered}

module _ {R T : Type 0} (Good : T → Type 0) (Fine : R → Type 0) where
  -- The frames that wait in the connection are such frames as well.
  abbrev pub Sends : Active R T → Type 0
  Sends c =
      Good c.socket
      × Fine c.receivers
      × MayCarry c.pending_read_frame
      × MayCarry c.pending_write_frame
      × (c.rtt.next_id < 2 ^ 32)

  finish_if-Sends : (b : Bool) (a : ℕ) (c : Active R T) → Sends c → Sends (finish_if b a c)
  unfolding finish_if
  finish_if-Sends true a c h = h
  finish_if-Sends false a c h = h

  reset-Sends : (id : ℕ) (c : Active R T) → Sends c → Sends (reset id c)
  unfolding reset close_at
  reset-Sends id c h = ground (arith, h)

  acknowledge-Sends : (x : Option ℕ) (c : Active R T) → Sends c → Sends (acknowledge x c)
  unfolding acknowledge
  acknowledge-Sends none c h = h
  acknowledge-Sends (some a) c h = h

  pub on_ack-Sends : (id : ℕ) (c : Active R T) → Sends c → Sends (on_ack id c)
  unfolding on_ack
  on_ack-Sends id c h = acknowledge-Sends (get id c.streams) c h

  data_at-Sends : (a : ℕ) (f : Frame) (c : Active R T) → Sends c → Sends (data_at a f c).1
  unfolding data_at finish_if forget_if_closed
  data_at-Sends a f c h = ground (arith, h)

  window_at-Sends : (a : ℕ) (f : Frame) (c : Active R T) → Sends c → Sends (window_at a f c).1
  unfolding window_at finish_if forget_if_closed
  window_at-Sends a f c h = ground (arith, h)

  on_ping-Sends :
      (now later : ℕ) (f : Frame) (c : Active R T) → Sends c → Sends (on_ping now later f c).1
  unfolding on_ping
  on_ping-Sends now later f c h =
      ground (arith, h, (handle_pong-Answered f.header.length now later c.rtt h.4).1)

  pub on_drop_stream-Sends :
      (id : ℕ) (c : Active R T)
      → id < 2 ^ 32
      → Sends c
      → MayCarry (on_drop_stream id c).0 × Sends (on_drop_stream id c).1
  unfolding on_drop_stream close_at
  on_drop_stream-Sends id c l h = at (get id c.streams)
    where
      at :
          (x : Option ℕ)
          → (MayCarry
              (elim x as (λ _. Option Frame × Active R T) [
                | none ↦ (none, c)
                | some a ↦ (
                  farewell (c.heap a).state id,
                  close_at a (record c { streams = remove id c.streams }),
                )
              ]).0)
            × Sends
                (elim x as (λ _. Option Frame × Active R T) [
                  | none ↦ (none, c)
                  | some a ↦ (
                    farewell (c.heap a).state id,
                    close_at a (record c { streams = remove id c.streams }),
                  )
                ]).1
      at none = (tt, h)
      at (some a) = (farewell-Carried (c.heap a).state id l, h)

  module _ (push : ℕ → ℕ → R → R) (pushes : (id a : ℕ) (r : R) → Fine r → Fine (push id a r)) where
    syn_by_data-Sends :
        (now : ℕ) (f : Frame) (c : Active R T) → Sends c → Sends (syn_by_data push now f c).1
    unfolding syn_by_data open_by_data make_new_inbound_stream allocate finish_if
    syn_by_data-Sends now f c h =
        ground (arith, h, pushes f.header.stream_id c.fresh c.receivers h.1)

    syn_by_window-Sends :
        (now : ℕ) (f : Frame) (c : Active R T) → Sends c → Sends (syn_by_window push now f c).1
    unfolding syn_by_window open_by_window make_new_inbound_stream allocate finish_if
    syn_by_window-Sends now f c h =
        ground (arith, h, pushes f.header.stream_id c.fresh c.receivers h.1)

    pub on_frame-Sends :
        (now later : ℕ) (f : Frame) (c : Active R T)
        → Sends c
        → Sends (on_frame push now later f c).1
    on_frame-Sends now later f c h =
        let k = acked_either Sends f c h (on_ack-Sends f.header.stream_id c h) in
        on_frame_cases Sends f push now later c (record {
          same = k;
          rst = reset-Sends f.header.stream_id (acked f c) k;
          syn_data = syn_by_data-Sends now f (acked f c) k;
          syn_window = syn_by_window-Sends now f (acked f c) k;
          data_frame = λ a e. data_at-Sends a f (acked f c) k;
          window_update = λ a e. window_at-Sends a f (acked f c) k;
          ping = on_ping-Sends now later f (acked f c) k;
        })
