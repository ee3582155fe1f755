-- ===== src/Tests/Streams.antt =====
-- stream.rs, flow_control.rs, chunks.rs, rtt.rs and the configuration, on concrete streams.
use rust_yamux.Common.{
  ◌-◌, ◌*◌, ◌+◌, ◌-◌, ◌%◌, ◌^◌, ◌≡◌, ◌≤◌, ◌⊎◌, ◌&&◌, refl, arith, none, List, [], ◌∷◌, ◌++◌, length,
  ok, ready, false, Returns, true, Option, ℕ,
}
use rust_yamux.Chunks
use rust_yamux.Chunks.{Chunk, Chunks}
use rust_yamux.Chunks.Content
use rust_yamux.Chunks.Content.{Pops, content, refines_bytes}
use rust_yamux.Config
use rust_yamux.Config.{default_credit, window_limit}
use rust_yamux.Config.Laws.{default-IsValid}
use rust_yamux.FlowControl
use rust_yamux.FlowControl.{FlowController, next_window_update}
use rust_yamux.FlowControl.Inv.{Inv, Updated, next_window_update-Updated}
use rust_yamux.FlowControl.Shared.{Step, Conn, Reach, extra, windows}
use rust_yamux.FlowControl.Shared.Windows.{Reach-windows}
use rust_yamux.Rtt.Protocol
use rust_yamux.Rtt.Protocol.{Call, run, outstanding, pings_balanced}
use rust_yamux.Stream.State.{no_flag, State, can_read, can_write}
use rust_yamux.Stream.Lifecycle.{updates, all_read, all_write, updates_meet}
use rust_yamux.Stream.Shared
use rust_yamux.Stream.Handle.{
  Channel, Stream, Context, StreamCommand, new_inbound, send_window_update, poll_write,
}
use rust_yamux.Common.Words.{u32_max}
use rust_yamux.Stream.Shared.{is_pending_ack}
use rust_yamux.Stream.Credit.{Sends, send_window_update_lem}
use rust_yamux.Stream.Acks.{window_update_does_not_acknowledge}
use rust_yamux.Stream.Reader.{poll_read}
use rust_yamux.Stream.Reading.{ReadCases, poll_read_lem}
use rust_yamux.Stream.Writing.{Writes, poll_write_lem}

-- A channel that takes every command.
abbrev pub channel : Channel (List StreamCommand)
channel = record {
  is_closed = λ c. false;
  poll_ready = λ h w c. (ready (ok tt), c);
  start_send = λ h x c. (ok tt, c ++ (x ∷ []));
  poll_flush = λ w c. (ready (ok tt), c);
}

abbrev pub context : Context
context = record { config = Config.default; rtt = none; now = 1; later = 1; waker = 4 }

abbrev inbound : Stream (List StreamCommand)
inbound = new_inbound 2 default_credit [] 0 0

-- Three bytes of an inbound stream are unread.
abbrev three : Stream (List StreamCommand)
three = record inbound {
  shared = record inbound.shared {
    flow = record inbound.shared.flow { receive_window = default_credit - 3 };
    buffer = Chunks.push Chunks.new (7 ∷ 8 ∷ 9 ∷ []);
  };
}

three-IsValid : Content.IsValid three.shared.buffer
unfolding new_inbound Shared.new
three-IsValid = (Content.push_lem Chunks.new (7 ∷ 8 ∷ 9 ∷ []) Content.new_lem.0).0

poll_read_lem_example : ReadCases channel context 2 three (poll_read channel context 2 three)
poll_read_lem_example = poll_read_lem channel context 2 three three-IsValid

poll_write_lem_example :
    Writes channel context inbound [] (1 ∷ 2 ∷ []) (poll_write channel context (1 ∷ 2 ∷ []) inbound)
unfolding new_inbound Shared.new FlowControl.new
poll_write_lem_example = poll_write_lem channel context inbound [] (1 ∷ 2 ∷ []) (omega arith) refl

updates_meet_example :
    (can_read (updates (State.opened false) (State.recv_closed ∷ State.closed ∷ []))
      ≡ (can_read (State.opened false) && all_read (State.recv_closed ∷ State.closed ∷ [])))
    × (can_write (updates (State.opened false) (State.recv_closed ∷ State.closed ∷ []))
        ≡ (can_write (State.opened false) && all_write (State.recv_closed ∷ State.closed ∷ [])))
updates_meet_example = updates_meet (State.opened false) (State.recv_closed ∷ State.closed ∷ [])

-- One stream of the connection.
abbrev first : FlowController
first = FlowControl.new default_credit 5 0

first-Inv : Inv Config.default none 0 first 0
unfolding FlowControl.new
first-Inv = ground (arith, default-IsValid)

next_window_update-Updated_example :
    Returns
      (Updated Config.default none 1 0 first 0)
      (next_window_update Config.default none 1 1 0 first 0)
next_window_update-Updated_example =
    next_window_update-Updated Config.default none 1 1 0 first 0 first-Inv

abbrev one_stream : Conn
one_stream = record { rtt = none; counter = 0; live = (first, 0) ∷ [] }

one_stream-Reach : Reach Config.default one_stream
one_stream-Reach = Reach.next Reach.here (Step.open_stream 5 0)

Reach-windows_example :
    (extra one_stream.live ≡ 0)
    × (windows one_stream.live
        ≤ window_limit Config.default
          + (length one_stream.live - Config.default.max_num_streams) * default_credit)
Reach-windows_example =
    Reach-windows Config.default default-IsValid (omega arith) one_stream one_stream-Reach

pings_balanced_example :
    let l = run (Protocol.start 0) (Call.poll 20000 20000 ∷ Call.pong 0 20100 20100 ∷ []) in
    (l.sent ≡ l.answered + outstanding l.rtt.state)
    × (l.rtt.next_id ≡ l.sent % 2 ^ 32)
    × ((l.rtt.rtt ≡ none) ⊎ (1 ≤ l.answered))
pings_balanced_example = pings_balanced 0 (Call.poll 20000 20000 ∷ Call.pong 0 20100 20100 ∷ [])

refines_bytes_example :
    Content.IsValid Chunks.new
    × (content Chunks.new ≡ [])
    × Content.IsValid (Chunks.push Chunks.new (4 ∷ []))
    × (content (Chunks.push Chunks.new (4 ∷ [])) ≡ content Chunks.new ++ (4 ∷ []))
    × (Chunks.len Chunks.new ≡ length (content Chunks.new))
    × Pops (content Chunks.new) (Chunks.pop Chunks.new)
refines_bytes_example = refines_bytes Chunks.new (4 ∷ []) Content.new_lem.0

-- The remote has used the whole window of an inbound stream, and all of it was read.
abbrev drained : Stream (List StreamCommand)
drained = record inbound {
  shared = record inbound.shared { flow = record inbound.shared.flow { receive_window = 0 } };
}

drained_flag : (send_window_update channel context drained).1.flag ≡ no_flag
unfolding new_inbound Shared.new FlowControl.new send_window_update next_window_update
    FlowControl.assert_invariants FlowControl.tune FlowControl.settle Chunks.len Chunks.new
drained_flag = refl

drained_window : (send_window_update channel context drained).1.shared.flow.send_window ≤ u32_max
unfolding new_inbound Shared.new FlowControl.new send_window_update next_window_update
    FlowControl.assert_invariants FlowControl.tune FlowControl.settle Chunks.len Chunks.new
drained_window = omega arith

window_update_does_not_acknowledge_example :
    is_pending_ack
      (poll_write channel context (1 ∷ []) (send_window_update channel context drained).1).1.shared
    ≡ true
unfolding new_inbound Shared.new is_pending_ack
window_update_does_not_acknowledge_example =
    window_update_does_not_acknowledge channel context drained
      (send_window_update channel context drained).1.channel (1 ∷ []) refl drained_flag
      drained_window refl

drained-Inv :
    Inv context.config context.rtt drained.counter drained.shared.flow
      (Chunks.len drained.shared.buffer)
unfolding new_inbound Shared.new FlowControl.new Chunks.len Chunks.new
drained-Inv = ground (arith, default-IsValid)

send_window_update_lem_example :
    (u : Option ℕ × ℕ × FlowController) × Updated context.config context.rtt context.later
      drained.counter drained.shared.flow
      (Chunks.len drained.shared.buffer)
      u
    × Sends channel context drained [] u (send_window_update channel context drained)
unfolding new_inbound Shared.new can_read
send_window_update_lem_example =
    send_window_update_lem channel context drained [] drained-Inv refl refl
