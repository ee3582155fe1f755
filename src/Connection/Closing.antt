-- ===== src/Connection/Closing.antt =====
-- connection/closing.rs: the graceful end of a connection. The loop is recursion on fuel over one
-- turn, which says `none` where the loop goes on.
pub mod Order
pub mod Sending
use rust_yamux.Common.{
  ℕ, zero, suc, Option, none, some, List, [], ◌∷◌, ◌++◌, Result, ok, err, Poll, ready, pending,
  panicked, stuck,
}
use rust_yamux.Frame.{Frame}
use rust_yamux.Frame
use rust_yamux.Frame.Io.{WriteResult, go_on}
use rust_yamux.Connection.Wires.{Next, blocked, ended, item, Receivers, Wire, command_frame}

pub data State : Type 0 where
  closing_stream_receiver draining_stream_receiver flushing_pending_frames closing_socket : State

pub record Closing (R T : Type 0) : Type 0 where
  pub state : State
  pub stream_receivers : R
  pub pending_frames : List Frame
  pub socket : T

unfoldable pub new : {R T : Type 0} → R → List Frame → T → Closing R T
new receivers frames socket = record {
  state = closing_stream_receiver;
  stream_receivers = receivers;
  pending_frames = frames;
  socket = socket;
}

module _ {R T : Type 0} where
  -- No more frames from streams: the last frame is the termination.
  abbrev pub no_more : Closing R T → Closing R T
  no_more c = record c {
    pending_frames = c.pending_frames ++ (Frame.term ∷ []);
    state = flushing_pending_frames;
  }

  unfoldable pub drain : Closing R T → Next × R → Closing R T
  unfolding command_frame
  drain c (item id (some cmd), r) = record c {
    stream_receivers = r;
    pending_frames = c.pending_frames ++ (command_frame id cmd ∷ []);
  }
  drain c (item id none, r) = record c { stream_receivers = r }
  drain c (blocked, r) = no_more (record c { stream_receivers = r })
  drain c (ended, r) = no_more (record c { stream_receivers = r })

  send_next : Wire T → List Frame → Closing R T → Closing R T
  send_next wire [] c = record c { state = closing_socket }
  send_next wire (f ∷ fs) c = record c { pending_frames = fs; socket = wire.start_send f c.socket }

  flush : Wire T → Closing R T → WriteResult × T → Option WriteResult × Closing R T
  unfolding send_next
  flush wire c (ready (ok _), t) = (none, send_next wire c.pending_frames (record c { socket = t }))
  flush wire c (r, t) = (some r, record c { socket = t })

  close : Closing R T → WriteResult × T → Option WriteResult × Closing R T
  close c (r, t) = (some r, record c { socket = t })

  unfoldable pub turn :
      Receivers R → Wire T → State → Closing R T → Option WriteResult × Closing R T
  unfolding drain flush close
  turn recv wire closing_stream_receiver c = (
    none,
    record c {
      stream_receivers = recv.close_all c.stream_receivers;
      state = draining_stream_receiver;
    },
  )
  turn recv wire draining_stream_receiver c = (none, drain c (recv.poll_next c.stream_receivers))
  turn recv wire flushing_pending_frames c = flush wire c (wire.poll_ready c.socket)
  turn recv wire closing_socket c = close c (wire.poll_close c.socket)

  unfoldable pub poll : Receivers R → Wire T → ℕ → Closing R T → WriteResult × Closing R T
  unfolding turn
  poll recv wire zero c = (stuck, c)
  poll recv wire (suc n) c = go_on (poll recv wire n) (turn recv wire c.state c)
