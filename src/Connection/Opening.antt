-- ===== src/Connection/Opening.antt =====
-- `Active`: how streams are opened, from either side.
use rust_yamux.Common.{
  ℕ, ◌+◌, Bool, ◌&&◌, none, some, [], ◌∷◌, ◌++◌, leb, if◌then◌else◌, length, Result, ok, err, Poll,
  ready, pending, panicked, stuck,
}
use rust_yamux.Common.Words.{checked_add_u32}
use rust_yamux.Config.{default_credit, max_ack_backlog}
use rust_yamux.Error.{ConnectionError, no_more_stream_ids, too_many_streams}
use rust_yamux.Frame.Header.{is_client, is_server}
use rust_yamux.Stream.State.{ack_first, syn_first}
use rust_yamux.Stream.Shared.{
  Shared, update_state, is_pending_ack, increase_send_window_by, consume_receive_window,
}
use rust_yamux.Stream.Shared
use rust_yamux.Connection.StreamMap.{StreamMap, insert}
use rust_yamux.Connection.Active.{Mode, client, server, Handle, Active, waker_list, write}

-- `StreamId::new(self.next_id)`, with the identifier after it. `none` is the failed assertion on the
-- parity of the identifier.
unfoldable pub parity : Mode → ℕ → Bool
unfolding is_client is_server
parity client id = is_client id
parity server id = is_server id

unfoldable pub pending_acks : Mode → (ℕ → Shared) → StreamMap → ℕ
pending_acks mode heap [] = 0
pending_acks mode heap ((id, a) ∷ m) =
    (if parity mode id && is_pending_ack (heap a) then 1 else 0) + pending_acks mode heap m

module _ {R T : Type 0} where
  unfoldable pub next_stream_id : Active R T → Poll (Result ConnectionError ℕ) × Active R T
  unfolding parity
  next_stream_id c = elim (checked_add_u32 c.next_id 2) [
    | none ↦ (ready (err no_more_stream_ids), c)
    | some n ↦
        let c' = record c { next_id = n } in
        if parity c.mode c.next_id then (ready (ok c.next_id), c') else (panicked, c')
  ]

  -- The outbound streams that the remote has not acknowledged.
  unfoldable pub ack_backlog : Active R T → ℕ
  unfolding pending_acks
  ack_backlog c = pending_acks c.mode c.heap c.streams

module _ {R T : Type 0} (push : ℕ → ℕ → R → R) where
  -- `make_new_inbound_stream` and `make_new_outbound_stream`: the new shared state is allocated, and
  -- the receiver of the stream's commands is added.
  unfoldable pub allocate : ℕ → Shared → Active R T → Active R T
  allocate id s c = record c {
    heap = write c.heap c.fresh s;
    fresh = c.fresh + 1;
    receivers = push id c.fresh c.receivers;
    no_streams_waker = none;
    woken = c.woken ++ waker_list c.no_streams_waker;
  }

  unfoldable pub make_new_inbound_stream : ℕ → ℕ → ℕ → Active R T → Handle × Active R T
  unfolding allocate Shared.new
  make_new_inbound_stream now id credit c = (
    record { id = id; address = c.fresh; flag = ack_first },
    allocate id (Shared.new default_credit credit now) c,
  )

  unfoldable pub make_new_outbound_stream : ℕ → ℕ → Active R T → Handle × Active R T
  unfolding allocate Shared.new
  make_new_outbound_stream now id c = (
    record { id = id; address = c.fresh; flag = syn_first },
    allocate id (Shared.new default_credit default_credit now) c,
  )

  unfoldable pub open_outbound :
      ℕ
      → Poll (Result ConnectionError ℕ) × Active R T
      → Poll (Result ConnectionError Handle) × Active R T
  unfolding make_new_outbound_stream
  open_outbound now (ready (ok id), c) =
      let (h, c') = make_new_outbound_stream now id c in
      (ready (ok h), record c' { streams = insert id h.address c'.streams })
  open_outbound now (ready (err e), c) = (ready (err e), c)
  open_outbound now (pending, c) = (pending, c)
  open_outbound now (panicked, c) = (panicked, c)
  open_outbound now (stuck, c) = (stuck, c)

  unfoldable pub poll_new_outbound :
      ℕ → ℕ → Active R T → Poll (Result ConnectionError Handle) × Active R T
  unfolding open_outbound
  poll_new_outbound waker now c =
      if leb c.config.max_num_streams (length c.streams)
      then (ready (err too_many_streams), c)
      else if leb max_ack_backlog (ack_backlog c)
      then (pending, record c { new_outbound_stream_waker = some waker })
      else open_outbound now (next_stream_id c)
