-- ===== src/Connection/Inbound.antt =====
-- `Active`: when a frame of the remote opens a stream.
use rust_yamux.Common.{
  List, [], subst, sym, ◌-◌, ℕ, ◌+◌, ◌≡◌, ◌≢◌, ◌≤◌, ◌<◌, ◌^◌, true, false, arith, none, some,
  if◌then◌else◌, length, ◌-◌, ◌⊎◌, [],
}
use rust_yamux.Action.{Action, new_stream, terminate}
use rust_yamux.Chunks
use rust_yamux.Chunks.Content
use rust_yamux.Config.{default_credit}
use rust_yamux.Frame.{Frame, body_len, protocol_error, internal_error}
use rust_yamux.Frame.Header.{
  Tag, data_tag, window_update_tag, contains, syn_flag, rst_flag, fin_flag,
}
use rust_yamux.FlowControl
use rust_yamux.Stream.State
use rust_yamux.Stream.Shared
use rust_yamux.Stream.State.{ack_first}
use rust_yamux.Stream.Shared.{Shared, update_state, consume_receive_window}
use rust_yamux.Connection.StreamMap.{get, contains_key, get-insert}
use rust_yamux.Connection.Active.{Active, Handle}
use rust_yamux.Connection.Opening.{make_new_inbound_stream, allocate}
use rust_yamux.Connection.Removal.{Reply, finish_if}
use rust_yamux.Connection.Handlers.{
  on_data, on_window_update, syn_by_data, syn_by_window, open_by_data, open_by_window,
  is_valid_remote_id,
}

-- A frame may open a stream: the identifier is one that the remote may use, it is not in use, and the
-- limit is not reached.
abbrev pub Admissible : {R T : Type 0} → Tag → Frame → Active R T → Type 0
Admissible tag f c =
    (is_valid_remote_id c.mode f.header.stream_id tag ≡ true)
    × (get f.header.stream_id c.streams ≡ none)
    × (length c.streams ≢ c.config.max_num_streams)

-- The stream that is opened: its identifier, its place, its windows, its state and its bytes.
abbrev pub Opened :
    {R T : Type 0} → Frame → ℕ → ℕ → List ℕ → Active R T → Action Handle → Active R T → Type 0
Opened f receive send bytes c r c' =
    (r ≡ new_stream (record { id = f.header.stream_id; address = c.fresh; flag = ack_first }))
    × (get f.header.stream_id c'.streams ≡ some c.fresh)
    × ((c'.heap c.fresh).flow.receive_window ≡ receive)
    × ((c'.heap c.fresh).flow.send_window ≡ send)
    × ((c'.heap c.fresh).state
        ≡ (if contains f.header.flags fin_flag then State.recv_closed else State.opened false))
    × (Chunks.Content.content (c'.heap c.fresh).buffer ≡ bytes)
    × Chunks.Content.IsValid (c'.heap c.fresh).buffer

-- The identifier is not for the remote to choose, or is in use.
abbrev pub BadId : {R T : Type 0} → Tag → Frame → Active R T → Type 0
BadId tag f c =
    (is_valid_remote_id c.mode f.header.stream_id tag ≡ false)
    ⊎ (get f.header.stream_id c.streams ≢ none)

abbrev pub OpensByData : {R T : Type 0} → Frame → Active R T → Reply R T → Type 0
OpensByData f c (r, c') =
    (Admissible data_tag f c
      × (length f.body ≤ default_credit)
      × Opened f (default_credit - length f.body) default_credit f.body c r c')
    ⊎ ((c' ≡ c)
        × (r ≡ terminate protocol_error)
        × (BadId data_tag f c ⊎ (default_credit < length f.body)))
    ⊎ ((c' ≡ c) × (r ≡ terminate internal_error) × (length c.streams ≡ c.config.max_num_streams))

abbrev pub OpensByWindow : {R T : Type 0} → Frame → Active R T → Reply R T → Type 0
OpensByWindow f c (r, c') =
    (Admissible window_update_tag f c
      × (f.header.length + default_credit < 2 ^ 32)
      × Opened f default_credit (f.header.length + default_credit) [] c r c')
    ⊎ ((c' ≡ c)
        × (r ≡ terminate protocol_error)
        × (BadId window_update_tag f c
            ⊎ (length c.streams ≡ c.config.max_num_streams)
            ⊎ (2 ^ 32 ≤ f.header.length + default_credit)))

module _ {R T : Type 0} (push : ℕ → ℕ → R → R) (now : ℕ) (f : Frame) (c : Active R T) where
  syn_by_data_lem : OpensByData f c (syn_by_data push now f c)
  unfolding syn_by_data contains_key open_by_data make_new_inbound_stream allocate finish_if
      body_len consume_receive_window FlowControl.consume_receive_window update_state Shared.new
      FlowControl.new
  syn_by_data_lem = ground (
    arith,
    Chunks.Content.push_lem Chunks.new f.body Chunks.Content.new_lem.0,
    Chunks.Content.new_lem.0,
    Chunks.Content.new_lem.1,
    get-insert f.header.stream_id f.header.stream_id c.fresh c.streams,
  )

  syn_by_window_lem : OpensByWindow f c (syn_by_window push now f c)
  unfolding syn_by_window contains_key open_by_window make_new_inbound_stream allocate finish_if
      update_state Shared.new FlowControl.new
  syn_by_window_lem = ground (
    arith,
    Chunks.Content.new_lem.0,
    Chunks.Content.new_lem.1,
    get-insert f.header.stream_id f.header.stream_id c.fresh c.streams,
  )

  -- A data frame with SYN and without RST: if the identifier is one of the remote's and not in use,
  -- the map has not the size of the limit and the body is within the default credit, a stream
  -- is opened at the fresh address, that holds the body and whose receive window is what the body
  -- leaves of the default credit; else nothing has changed, and the connection is to be terminated
  -- with an internal error, the map having the size of the limit, or with a protocol error.
  pub opens_by_data :
      contains f.header.flags rst_flag ≡ false
      → contains f.header.flags syn_flag ≡ true
      → OpensByData f c (on_data push now f c)
  unfolding on_data
  opens_by_data r s =
      let p : on_data push now f c ≡ syn_by_data push now f c = ground (arith, r, s) in
      subst (OpensByData f c) (sym p) syn_by_data_lem

  -- A window update with SYN and without RST: if the identifier is one of the remote's and not in
  -- use, the map has not the size of the limit, and the credit and the default credit add up to a
  -- `u32`, a stream is opened at the fresh address with that sum as its send window and nothing to
  -- read; else nothing has changed, and the connection is to be terminated with a protocol error.
  pub opens_by_window :
      contains f.header.flags rst_flag ≡ false
      → contains f.header.flags syn_flag ≡ true
      → OpensByWindow f c (on_window_update push now f c)
  unfolding on_window_update
  opens_by_window r s =
      let p : on_window_update push now f c ≡ syn_by_window push now f c = ground (arith, r, s) in
      subst (OpensByWindow f c) (sym p) syn_by_window_lem
