-- ===== src/Connection/Removal.antt =====
-- `Active`: how a stream leaves the connection, by a reset, by two FINs, or by a dropped handle.
use rust_yamux.Action.{Action}
use rust_yamux.Common.{ℕ, Bool, true, false, Option, none, some}
use rust_yamux.Frame.{Frame, body_len, protocol_error, internal_error}
use rust_yamux.Frame
use rust_yamux.Frame.Header
use rust_yamux.Frame.Header.{
  Tag, data_tag, window_update_tag, ping_tag, go_away_tag, contains, syn_flag, ack_flag, fin_flag,
  rst_flag, is_client, is_server, is_session, connection_id,
}
use rust_yamux.Stream.State
use rust_yamux.Stream.State.{Flag, ack_first, syn_first}
use rust_yamux.Stream.Shared.{update_state}
use rust_yamux.Connection.StreamMap.{get, remove}
use rust_yamux.Connection.Active.{Handle, Active, update_at, close_at}

-- The result of a handler is an action and the new connection.
abbrev pub Reply : Type 0 → Type 0 → Type 0
Reply R T = Action Handle × Active R T

-- The frame that tells the remote of a dropped stream, by its state before.
unfoldable pub farewell : State.State → ℕ → Option Frame
farewell (State.opened _) id = some (Frame.new (Header.rst (Header.data_header id 0)))
farewell State.recv_closed id = some (Frame.new (Header.fin (Header.data_header id 0)))
farewell State.send_closed id = none
farewell State.closed id = none

module _ {R T : Type 0} where
  -- The branch of a reset, the same in `on_data` and `on_window_update`.
  unfoldable pub reset : ℕ → Active R T → Active R T
  unfolding close_at
  reset id c = elim (get id c.streams) [
    | none ↦ record c { streams = remove id c.streams }
    | some a ↦ record (close_at a c) { streams = remove id c.streams }
  ]

  unfoldable pub finish_if : Bool → ℕ → Active R T → Active R T
  unfolding update_state
  finish_if true a c = update_at a State.recv_closed c
  finish_if false a c = c

  -- `if closed { self.streams.remove(&stream_id) }`, where the state has become closed by a FIN.
  unfoldable pub forget_if_closed : Bool → ℕ → ℕ → Active R T → Active R T
  forget_if_closed false id a c = c
  forget_if_closed true id a c = elim (c.heap a).state [
    | State.closed ↦ record c { streams = remove id c.streams }
    | _ ↦ c
  ]

  unfoldable pub on_drop_stream : ℕ → Active R T → Option Frame × Active R T
  unfolding farewell close_at
  on_drop_stream id c = elim (get id c.streams) [
    | none ↦ (none, c)
    | some a ↦
        (farewell (c.heap a).state id, close_at a (record c { streams = remove id c.streams }))
  ]
