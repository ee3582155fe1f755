-- ===== src/Connection/Handlers.antt =====
-- `Active`: what the connection does about an incoming frame.
use rust_yamux.Common.{
  ℕ, Bool, true, false, not, ◌&&◌, ◌||◌, Option, none, some, ◌++◌, ◌==◌, ltb, if◌then◌else◌, length,
  Result, ok, err,
}
use rust_yamux.Common.Words.{checked_add_u32}
use rust_yamux.Config.{default_credit}
use rust_yamux.Error.{ConnectionError, closed}
use rust_yamux.Frame.{Frame, body_len, protocol_error, internal_error}
use rust_yamux.Frame
use rust_yamux.Frame.Header
use rust_yamux.Frame.Header.{
  Tag, data_tag, window_update_tag, ping_tag, go_away_tag, contains, syn_flag, ack_flag, fin_flag,
  rst_flag, is_client, is_server, is_session, connection_id,
}
use rust_yamux.Action.{Action, no_action, new_stream, ping, terminate}
use rust_yamux.Chunks
use rust_yamux.Rtt.{Rtt}
use rust_yamux.Rtt
use rust_yamux.Stream.State
use rust_yamux.Stream.State.{Flag, ack_first, syn_first}
use rust_yamux.Stream.Shared.{update_state, increase_send_window_by, consume_receive_window}
use rust_yamux.Connection.StreamMap.{get, contains_key, insert}
use rust_yamux.Connection.Active.{
  Mode, client, server, Handle, Active, waker_list, set_shared, wake_reader, wake_writer, update_at,
}
use rust_yamux.Connection.Removal.{Reply, reset, finish_if, forget_if_closed}
use rust_yamux.Connection.Opening.{make_new_inbound_stream}

unfoldable pub is_valid_remote_id : Mode → ℕ → Tag → Bool
unfolding is_client is_server is_session
is_valid_remote_id mode id ping_tag = is_session id
is_valid_remote_id mode id go_away_tag = is_session id
is_valid_remote_id client id data_tag = is_server id
is_valid_remote_id server id data_tag = is_client id
is_valid_remote_id client id window_update_tag = is_server id
is_valid_remote_id server id window_update_tag = is_client id

-- `matches!(tag, Tag::Data | Tag::WindowUpdate)`.
unfoldable pub is_stream_tag : Tag → Bool
is_stream_tag data_tag = true
is_stream_tag window_update_tag = true
is_stream_tag _ = false

module _ {R T : Type 0} where
  -- A data frame for the stream at `a`.
  unfoldable pub data_at : ℕ → Frame → Active R T → Reply R T
  unfolding finish_if forget_if_closed body_len
  data_at a f c =
      let fin = contains f.header.flags fin_flag in
      elim (consume_receive_window (c.heap a) (body_len f)) [
        | err _ ↦ (terminate protocol_error, c)
        | ok s ↦
            let c₁ = finish_if fin a (set_shared a s c) in
            let s₁ = c₁.heap a in
            let c₂ = set_shared a (record s₁ { buffer = Chunks.push s₁.buffer f.body }) c₁ in
            (no_action, forget_if_closed fin f.header.stream_id a (wake_reader a c₂))
      ]

  -- A window update for the stream at `a`.
  unfoldable pub window_at : ℕ → Frame → Active R T → Reply R T
  unfolding finish_if forget_if_closed
  window_at a f c =
      let fin = contains f.header.flags fin_flag in
      elim (increase_send_window_by (c.heap a) f.header.length) [
        | err _ ↦ (terminate protocol_error, c)
        | ok s ↦
            let c₁ = finish_if fin a (set_shared a s c) in
            let c₂ = (if fin then wake_reader a c₁ else c₁) in
            (no_action, forget_if_closed fin f.header.stream_id a (wake_writer a c₂))
      ]

  -- `now` and `later` are the readings of the clock in `handle_pong`.
  unfoldable pub on_ping : ℕ → ℕ → Frame → Active R T → Reply R T
  on_ping now later f c =
      if contains f.header.flags ack_flag
      then (let (a, r) = Rtt.handle_pong f.header.length now later c.rtt in
          (a, record c { rtt = r }))
      else if f.header.stream_id == connection_id || contains_key f.header.stream_id c.streams
      then (ping (Frame.new (Header.ack (Header.ping_header f.header.length))), c)
      else (no_action, c)

  unfoldable pub acknowledge : Option ℕ → Active R T → Active R T
  unfolding update_state
  acknowledge none c = c
  acknowledge (some a) c = update_at a (State.opened true) c

  -- The ACK of a stream frame acknowledges the stream and wakes the task that waits to open one.
  unfoldable pub on_ack : ℕ → Active R T → Active R T
  unfolding acknowledge
  on_ack id c =
      let c₁ = acknowledge (get id c.streams) c in
      record c₁ {
        new_outbound_stream_waker = none;
        woken = c₁.woken ++ waker_list c₁.new_outbound_stream_waker;
      }

module _ {R T : Type 0} (push : ℕ → ℕ → R → R) where
  -- A data frame that opens a stream, after the checks.
  unfoldable pub open_by_data : ℕ → Frame → Active R T → Reply R T
  unfolding make_new_inbound_stream finish_if body_len
  open_by_data now f c =
      let id = f.header.stream_id in
      let (h, c₁) = make_new_inbound_stream push now id default_credit c in
      let c₂ = finish_if (contains f.header.flags fin_flag) h.address c₁ in
      elim (consume_receive_window (c₂.heap h.address) (body_len f)) [
        | err _ ↦ (terminate protocol_error, c₂)
        | ok s ↦
            let c₃ = set_shared h.address (record s { buffer = Chunks.push s.buffer f.body }) c₂ in
            (new_stream h, record c₃ { streams = insert id h.address c₃.streams })
      ]

  unfoldable pub syn_by_data : ℕ → Frame → Active R T → Reply R T
  unfolding open_by_data
  syn_by_data now f c =
      if not (is_valid_remote_id c.mode f.header.stream_id data_tag)
      then (terminate protocol_error, c)
      else if contains_key f.header.stream_id c.streams
      then (terminate protocol_error, c)
      else if length c.streams == c.config.max_num_streams
      then (terminate internal_error, c)
      else if ltb default_credit (length f.body)
      then (terminate protocol_error, c)
      else open_by_data now f c

  unfoldable pub on_data : ℕ → Frame → Active R T → Reply R T
  unfolding syn_by_data data_at
  on_data now f c =
      if contains f.header.flags rst_flag
      then (no_action, reset f.header.stream_id c)
      else if contains f.header.flags syn_flag
      then syn_by_data now f c
      else elim (get f.header.stream_id c.streams) [
        | none ↦ (no_action, c)
        | some a ↦ data_at a f c
      ]

  unfoldable pub open_by_window : ℕ → Frame → ℕ → Active R T → Reply R T
  unfolding make_new_inbound_stream finish_if
  open_by_window now f credit c =
      let id = f.header.stream_id in
      let (h, c₁) = make_new_inbound_stream push now id credit c in
      let c₂ = finish_if (contains f.header.flags fin_flag) h.address c₁ in
      (new_stream h, record c₂ { streams = insert id h.address c₂.streams })

  unfoldable pub syn_by_window : ℕ → Frame → Active R T → Reply R T
  unfolding open_by_window
  syn_by_window now f c =
      if not (is_valid_remote_id c.mode f.header.stream_id window_update_tag)
      then (terminate protocol_error, c)
      else if contains_key f.header.stream_id c.streams
      then (terminate protocol_error, c)
      else if length c.streams == c.config.max_num_streams
      then (terminate protocol_error, c)
      else elim (checked_add_u32 f.header.length default_credit) [
        | none ↦ (terminate protocol_error, c)
        | some credit ↦ open_by_window now f credit c
      ]

  unfoldable pub on_window_update : ℕ → Frame → Active R T → Reply R T
  unfolding syn_by_window window_at
  on_window_update now f c =
      if contains f.header.flags rst_flag
      then (no_action, reset f.header.stream_id c)
      else if contains f.header.flags syn_flag
      then syn_by_window now f c
      else elim (get f.header.stream_id c.streams) [
        | none ↦ (no_action, c)
        | some a ↦ window_at a f c
      ]

  unfoldable pub dispatch :
      Tag → ℕ → ℕ → Frame → Active R T → Result ConnectionError (Action Handle) × Active R T
  dispatch data_tag now later f c = let (a, c') = on_data now f c in (ok a, c')
  dispatch window_update_tag now later f c = let (a, c') = on_window_update now f c in (ok a, c')
  dispatch ping_tag now later f c = let (a, c') = on_ping now later f c in (ok a, c')
  dispatch go_away_tag now later f c = (err closed, c)

  unfoldable pub on_frame :
      ℕ → ℕ → Frame → Active R T → Result ConnectionError (Action Handle) × Active R T
  unfolding on_ack dispatch is_stream_tag
  on_frame now later f c =
      let acked = contains f.header.flags ack_flag && is_stream_tag f.header.tag in
      let c' = (if acked then on_ack f.header.stream_id c else c) in
      if not (contains f.header.flags syn_flag)
        && is_stream_tag f.header.tag
        && not (contains_key f.header.stream_id c'.streams)
      then (ok no_action, c')
      else dispatch f.header.tag now later f c'
