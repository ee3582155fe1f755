-- ===== src/Stream/Handle.antt =====
-- `Stream`: the operations of its user, which poll the channel to the connection, the shared state
-- and the clock. The `mpsc` channel is no code of the crate: its two sending handles are a state `C`
-- with the operations of `Channel`.
use rust_yamux.Common.{
  ℕ, min, Bool, true, false, not, Option, none, some, List, ◌==◌, if◌then◌else◌, length, take,
  Result, ok, err, Poll, ready, pending, panicked, stuck,
}
use rust_yamux.Config.{Config, default_credit}
use rust_yamux.Error.{write_zero}
use rust_yamux.Frame.{Frame}
use rust_yamux.Frame
use rust_yamux.Frame.Header
use rust_yamux.Chunks.{Chunks}
use rust_yamux.Chunks
use rust_yamux.FlowControl.{FlowController}
use rust_yamux.FlowControl
use rust_yamux.Stream.State.{
  opened, send_closed, closed, Flag, no_flag, syn_first, ack_first, can_read, can_write,
}
use rust_yamux.Stream.Shared
use rust_yamux.Stream.Shared.{Shared, update_state, consume_send_window}

pub data StreamCommand : Type 0 where
  send_frame : Frame → StreamCommand
  close_stream : (ack : Bool) → StreamCommand

-- `Stream::sender` and `Stream::window_update_sender`.
pub data Half : Type 0 where
  writing updating : Half

-- `mpsc::Sender`: a full channel answers `pending` and keeps the waker; an error says that the
-- receiver is gone.
pub record Channel (C : Type 0) : Type 0 where
  pub is_closed : C → Bool
  pub poll_ready : Half → ℕ → C → Poll (Result ℕ (Unit {0})) × C
  pub start_send : Half → StreamCommand → C → Result ℕ (Unit {0}) × C
  pub poll_flush : ℕ → C → Poll (Result ℕ (Unit {0})) × C

-- `counter` is the connection's `accumulated_max_stream_windows`.
pub record Stream (C : Type 0) : Type 0 where
  pub id : ℕ
  pub flag : Flag
  pub channel : C
  pub shared : Shared
  pub counter : ℕ

-- What a call reads besides: the configuration, the measured round-trip time, the clock (at two
-- readings), and the waker of the task.
pub record Context : Type 0 where
  pub config : Config
  pub rtt : Option ℕ
  pub now : ℕ
  pub later : ℕ
  pub waker : ℕ

-- `Stream::new_inbound` and `Stream::new_outbound`.
unfoldable pub new_inbound : {C : Type 0} → ℕ → ℕ → C → ℕ → ℕ → Stream C
unfolding Shared.new
new_inbound id send_window channel counter now = record {
  id = id;
  flag = ack_first;
  channel = channel;
  shared = Shared.new default_credit send_window now;
  counter = counter;
}

unfoldable pub new_outbound : {C : Type 0} → ℕ → C → ℕ → ℕ → Stream C
unfolding Shared.new
new_outbound id channel counter now = record {
  id = id;
  flag = syn_first;
  channel = channel;
  shared = Shared.new default_credit default_credit now;
  counter = counter;
}

-- What the handle tells of its state.
unfoldable pub is_write_closed : {C : Type 0} → Stream C → Bool
is_write_closed s = elim s.shared.state [ send_closed ↦ true | _ ↦ false ]

unfoldable pub is_closed : {C : Type 0} → Stream C → Bool
is_closed s = elim s.shared.state [ closed ↦ true | _ ↦ false ]

unfoldable pub is_pending_ack : {C : Type 0} → Stream C → Bool
unfolding Shared.is_pending_ack
is_pending_ack s = Shared.is_pending_ack s.shared

-- The header that `add_flag` makes; the stream's flag is `no_flag` afterwards.
unfoldable pub add_flag : Flag → Header.Header → Header.Header
unfolding Header.syn Header.ack
add_flag no_flag h = h
add_flag syn_first h = Header.syn h
add_flag ack_first h = Header.ack h

flagged : Flag → Frame → Frame
unfolding add_flag
flagged flag f = record f { header = add_flag flag f.header }

module _ {C : Type 0} (ch : Channel C) (cx : Context) where
  -- `start_send` of a command, with its error as `write_zero`.
  enqueue : {A : Type 0} → Half → StreamCommand → A → Stream C → Poll (Result ℕ A) × Stream C
  enqueue half cmd a s =
      let (r, c) = ch.start_send half cmd s.channel in
      (elim r [ ok _ ↦ ready (ok a) | err _ ↦ ready (err write_zero) ], record s { channel = c })

  -- `ready!(sender.poll_ready(cx).map_err(..)?)`, and what follows it.
  when_ready :
      {A : Type 0}
      → Half
      → (Stream C → Poll (Result ℕ A) × Stream C)
      → Stream C
      → Poll (Result ℕ A) × Stream C
  when_ready half next s =
      let (r, c) = ch.poll_ready half cx.waker s.channel in
      let s' = record s { channel = c } in
      elim r [
        | ready (ok _) ↦ next s'
        | ready (err _) ↦ (ready (err write_zero), s')
        | pending ↦ (pending, s')
        | panicked ↦ (panicked, s')
        | stuck ↦ (stuck, s')
      ]

  -- The frame of a grant.
  offer : Stream C → ℕ → Poll (Result ℕ (Unit {0})) × Stream C
  unfolding enqueue flagged Frame.window_update
  offer s credit =
      enqueue updating (send_frame (flagged s.flag (Frame.window_update s.id credit))) tt
        (record s { flag = no_flag })

  -- The grant that the flow controller makes, if any.
  grant : Stream C → Poll (Result ℕ (Unit {0})) × Stream C
  unfolding offer
  grant s =
      elim (FlowControl.next_window_update cx.config cx.rtt cx.now cx.later s.counter s.shared.flow
        (Chunks.len s.shared.buffer)) [
          | none ↦ (panicked, s)
          | some (none, acc, fc) ↦
              (ready (ok tt), record s { counter = acc; shared = record (s.shared) { flow = fc } })
          | some (some credit, acc, fc) ↦
              offer (record s { counter = acc; shared = record (s.shared) { flow = fc } }) credit
        ]

  unfoldable pub send_window_update : Stream C → Poll (Result ℕ (Unit {0})) × Stream C
  unfolding when_ready grant can_read
  send_window_update s =
      if not (can_read s.shared.state) then (ready (ok tt), s) else when_ready updating grant s

  -- `poll_write` once the channel has room: the number of bytes taken.
  unfoldable pub write_body : List ℕ → Stream C → Poll (Result ℕ ℕ) × Stream C
  unfolding flagged enqueue Frame.data_frame update_state
  write_body body s = elim (Frame.data_frame s.id body) [
    | none ↦ (panicked, s)
    | some f ↦
        let frame = flagged s.flag f in
        let s' = record s {
          flag = no_flag;
          shared =
              if Header.contains frame.header.flags Header.ack_flag
              then (update_state s.shared (opened true)).1
              else s.shared;
        } in
        enqueue writing (send_frame frame) (length body) s'
  ]

  unfoldable pub write_some : List ℕ → Stream C → Poll (Result ℕ ℕ) × Stream C
  write_some buf s =
      if not (can_write s.shared.state)
      then (ready (err write_zero), s)
      else if window == 0
      then (pending, record s { shared = record (s.shared) { writer = some cx.waker } })
      else elim (consume_send_window s.shared k) [
        | err _ ↦ (panicked, s)
        | ok shared ↦ write_body (take k buf) (record s { shared = shared })
      ]
    where
      window : ℕ
      window = s.shared.flow.send_window

      k : ℕ
      k = min (min window (length buf)) cx.config.split_send_size

  unfoldable pub poll_write : List ℕ → Stream C → Poll (Result ℕ ℕ) × Stream C
  unfolding when_ready
  poll_write buf s = when_ready writing (write_some buf) s

  unfoldable pub poll_flush : Stream C → Poll (Result ℕ (Unit {0})) × Stream C
  poll_flush s =
      let (r, c) = ch.poll_flush cx.waker s.channel in
      (elim r [ ready (err _) ↦ ready (err write_zero) | x ↦ x ], record s { channel = c })

  -- The rest of `poll_close` once the channel has room.
  close_writing : Stream C → Poll (Result ℕ (Unit {0})) × Stream C
  close_writing s =
      let ack : Bool = elim s.flag [ ack_first ↦ true | _ ↦ false ] in
      let flag : Flag = elim s.flag [ ack_first ↦ no_flag | other ↦ other ] in
      let (r, c) = ch.start_send writing (close_stream ack) s.channel in
      let s' = record s { flag = flag; channel = c } in
      elim r [
        | err _ ↦ (ready (err write_zero), s')
        | ok _ ↦ (ready (ok tt), record s' { shared = (update_state s.shared send_closed).1 })
      ]

  unfoldable pub poll_close : Stream C → Poll (Result ℕ (Unit {0})) × Stream C
  unfolding when_ready close_writing
  poll_close s = elim s.shared.state [
    | closed ↦ (ready (ok tt), s)
    | _ ↦ when_ready writing close_writing s
  ]
