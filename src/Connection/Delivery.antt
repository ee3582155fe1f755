-- ===== src/Connection/Delivery.antt =====
-- `Active`: what a frame does to the stream that it names.
use rust_yamux.Common.{
  append-nil, List, [], ◌^◌, ◌&&◌, subst, sym, ℕ, ◌+◌, ◌≡◌, ◌≤◌, ◌<◌, Bool, true, false, arith,
  Option, none, some, if◌then◌else◌, length, ◌++◌, Result, ok, ◌^◌, ◌⊎◌,
}
use rust_yamux.Error.{ConnectionError}
use rust_yamux.Action.{Action, no_action, terminate}
use rust_yamux.Chunks
use rust_yamux.Chunks.Content
use rust_yamux.Frame.{Frame, body_len, protocol_error}
use rust_yamux.Frame.Header.{
  data_tag, window_update_tag, contains, syn_flag, rst_flag, ack_flag, fin_flag,
}
use rust_yamux.FlowControl
use rust_yamux.Stream.State
use rust_yamux.Stream.Shared.{Shared, update_state, consume_receive_window, increase_send_window_by}
use rust_yamux.Connection.StreamMap.{get, contains_key, get-remove}
use rust_yamux.Connection.Active.{waker_list, Handle, Active}
use rust_yamux.Connection.Removal.{finish_if, forget_if_closed}
use rust_yamux.Connection.Handlers.{
  on_frame, dispatch, on_data, on_window_update, data_at, window_at, is_stream_tag,
}

-- Neither opens, acknowledges nor resets a stream.
pub record IsPlain (f : Frame) : Type 0 where
  pub no_syn : contains f.header.flags syn_flag ≡ false
  pub no_ack : contains f.header.flags ack_flag ≡ false
  pub no_rst : contains f.header.flags rst_flag ≡ false

abbrev pub after_fin : Bool → State.State → State.State
after_fin fin s = if fin then State.next_state s State.recv_closed else s

-- The shared state after the body of a data frame has been taken in.
abbrev pub Received : Frame → Shared → Shared → Type 0
Received f s s' =
    (Chunks.Content.content s'.buffer ≡ Chunks.Content.content s.buffer ++ f.body)
    × Chunks.Content.IsValid s'.buffer
    × (s'.flow.receive_window + length f.body ≡ s.flow.receive_window)
    × (s'.state ≡ after_fin (contains f.header.flags fin_flag) s.state)
    × (s'.reader ≡ none)
    × (s'.flow.send_window ≡ s.flow.send_window)

-- The shared state after a window update.
abbrev pub Credited : Frame → Shared → Shared → Type 0
Credited f s s' =
    (s'.flow.send_window ≡ s.flow.send_window + f.header.length)
    × (s'.state ≡ after_fin (contains f.header.flags fin_flag) s.state)
    × (s'.buffer ≡ s.buffer)
    × (s'.writer ≡ none)
    × (s'.reader ≡ (if contains f.header.flags fin_flag then none else s.reader))
    × (s'.flow.receive_window ≡ s.flow.receive_window)

unfoldable pub is_closed : State.State → Bool
is_closed State.closed = true
is_closed _ = false

-- A stream leaves the map by a FIN that finds the other side closed.
abbrev pub entry_after : Frame → ℕ → Shared → Option ℕ
entry_after f a s' = if contains f.header.flags fin_flag && is_closed s'.state then none else some a

-- What a data frame for the stream at `a` does, by whether its body fits the window.
abbrev pub Delivered :
    {R T : Type 0}
    → Frame
    → ℕ
    → Active R T
    → Result ConnectionError (Action Handle) × Active R T
    → Type 0
Delivered f a c (r, c') =
    ((length f.body ≤ (c.heap a).flow.receive_window)
      × (r ≡ ok no_action)
      × Received f (c.heap a) (c'.heap a)
      × (c'.woken ≡ c.woken ++ waker_list (c.heap a).reader)
      × (get f.header.stream_id c'.streams ≡ entry_after f a (c'.heap a)))
    ⊎ (((c.heap a).flow.receive_window < length f.body)
        × (r ≡ ok (terminate protocol_error))
        × (c' ≡ c))

-- The reader that a FIN wakes.
abbrev pub woken_reader : Frame → Shared → List ℕ
woken_reader f s = if contains f.header.flags fin_flag then waker_list s.reader else []

-- What a window update for the stream at `a` does, by whether the window stays a `u32`.
abbrev pub Raised :
    {R T : Type 0}
    → Frame
    → ℕ
    → Active R T
    → Result ConnectionError (Action Handle) × Active R T
    → Type 0
Raised f a c (r, c') =
    (((c.heap a).flow.send_window + f.header.length < 2 ^ 32)
      × (r ≡ ok no_action)
      × Credited f (c.heap a) (c'.heap a)
      × (c'.woken ≡ (c.woken ++ woken_reader f (c.heap a)) ++ waker_list (c.heap a).writer)
      × (get f.header.stream_id c'.streams ≡ entry_after f a (c'.heap a)))
    ⊎ ((2 ^ 32 ≤ (c.heap a).flow.send_window + f.header.length)
        × (r ≡ ok (terminate protocol_error))
        × (c' ≡ c))

module _ {R T : Type 0} where
  pub data_at_lem :
      (a : ℕ) (f : Frame) (c : Active R T)
      → Chunks.Content.IsValid (c.heap a).buffer
      → length f.body < 2 ^ 32
      → get f.header.stream_id c.streams ≡ some a
      → Delivered f a c (ok (data_at a f c).0, (data_at a f c).1)
  unfolding data_at body_len consume_receive_window FlowControl.consume_receive_window finish_if
      forget_if_closed update_state is_closed
  data_at_lem a f c v l e = ground (
    arith,
    Chunks.Content.push_lem (c.heap a).buffer f.body v,
    get-remove f.header.stream_id f.header.stream_id c.streams,
  )

  pub window_at_lem :
      (a : ℕ) (f : Frame) (c : Active R T)
      → get f.header.stream_id c.streams ≡ some a
      → Raised f a c (ok (window_at a f c).0, (window_at a f c).1)
  unfolding window_at increase_send_window_by FlowControl.increase_send_window_by finish_if
      forget_if_closed update_state is_closed
  window_at_lem a f c e =
      ground (arith, append-nil c.woken, get-remove f.header.stream_id f.header.stream_id c.streams)

module _ {R T : Type 0} (push : ℕ → ℕ → R → R) (now later : ℕ) (f : Frame) (c : Active R T)
    (a : ℕ) where
  on_frame-data :
      IsPlain f
      → f.header.tag ≡ data_tag
      → get f.header.stream_id c.streams ≡ some a
      → on_frame push now later f c ≡ (ok (data_at a f c).0, (data_at a f c).1)
  unfolding on_frame is_stream_tag contains_key dispatch on_data
  on_frame-data p t e = ground (arith, p.no_syn, p.no_ack, p.no_rst)

  on_frame-window :
      IsPlain f
      → f.header.tag ≡ window_update_tag
      → get f.header.stream_id c.streams ≡ some a
      → on_frame push now later f c ≡ (ok (window_at a f c).0, (window_at a f c).1)
  unfolding on_frame is_stream_tag contains_key dispatch on_window_update
  on_frame-window p t e = ground (arith, p.no_syn, p.no_ack, p.no_rst)

  -- A data frame without SYN, ACK and RST for a stream of the map, whose buffer is valid, with a body
  -- of less than 2 ^ 32 bytes: if the body fits the receive window, the bytes go to the end of the
  -- buffer, the receive window shrinks by their number, the send window is kept, a FIN closes the
  -- reading side, the reader is woken, and the stream leaves the map if the FIN closed it for good;
  -- else the connection is to be terminated with a protocol error and nothing has changed.
  pub delivers :
      IsPlain f
      → f.header.tag ≡ data_tag
      → get f.header.stream_id c.streams ≡ some a
      → Chunks.Content.IsValid (c.heap a).buffer
      → length f.body < 2 ^ 32
      → Delivered f a c (on_frame push now later f c)
  delivers p t e v l = subst (Delivered f a c) (sym (on_frame-data p t e)) (data_at_lem a f c v l e)

  -- A window update without SYN, ACK and RST for a stream of the map: if the send window plus the
  -- credit is below 2 ^ 32, the window grows by the credit, the writer is woken, a FIN closes the
  -- reading side and wakes the reader, the buffer and the receive window are kept, and the stream
  -- leaves the map if the FIN closed it for good; else the connection is to be terminated with a
  -- protocol error and nothing has changed.
  pub raises :
      IsPlain f
      → f.header.tag ≡ window_update_tag
      → get f.header.stream_id c.streams ≡ some a
      → Raised f a c (on_frame push now later f c)
  raises p t e = subst (Raised f a c) (sym (on_frame-window p t e)) (window_at_lem a f c e)
