-- ===== src/Tests/Sessions.antt =====
-- A session between a client and a server, whose channels are lists.
use rust_yamux.Common.{inl, ◌<◌, ◌≡◌, refl, arith, List, [], ◌∷◌, ok, false, ℕ, ready, ◌++◌}
use rust_yamux.Action.{no_action}
use rust_yamux.Chunks.Content
use rust_yamux.FlowControl
use rust_yamux.Frame.{Frame}
use rust_yamux.Frame.Header.{data_header}
use rust_yamux.Config.Laws.{default-IsValid}
use rust_yamux.Connection.Active.{set_shared}
use rust_yamux.Session.Progress.{is_read}
use rust_yamux.Connection.Wires.{command_frame}
use rust_yamux.Session.{run}
use rust_yamux.Stream.State.{Flag, no_flag, ack_first, can_read, can_write}
use rust_yamux.Stream.Shared
use rust_yamux.Stream.Handle.{Half, poll_write, write_some, write_body, StreamCommand, poll_write}
use rust_yamux.Connection.StreamMap.{get}
use rust_yamux.Connection.Active
use rust_yamux.Connection.Active.{Mode, client, server, Active}
use rust_yamux.Connection.Handlers.{on_frame}
use rust_yamux.Session.{Fifo, End, Call, call, run}
use rust_yamux.Session.Flight.{bodies, credits, frames_of}
use rust_yamux.Session.Link.{Link, Opened, Fresh, Reach, flip, ahead, carry, deliver}
use rust_yamux.Session.Link
use rust_yamux.Session.Transfer.{never_refused}
use rust_yamux.Session.Progress.{Starved, released, read_right}
use rust_yamux.Tests.Connections.{plain, start, Conn, add_receiver}
use rust_yamux.Tests.Streams.{channel, context}

pub drop_first : List StreamCommand → List StreamCommand
drop_first [] = []
drop_first (c ∷ cs) = cs

pub sends_last :
    (h : Half) (w : ℕ) (cmd : StreamCommand) (c c' : List StreamCommand)
    → channel.poll_ready h w c ≡ (ready (ok tt), c')
    → ((channel.start_send h cmd c').0 ≡ ok tt)
      × ((channel.start_send h cmd c').1 ≡ c ++ (cmd ∷ []))
sends_last h w cmd c c' e = (refl, ground arith)

pub drops_first :
    (cmd : StreamCommand) (cmds c : List StreamCommand) → c ≡ cmd ∷ cmds → drop_first c ≡ cmds
unfolding drop_first
drops_first cmd cmds c e = ground arith

unfoldable pub fifo : Fifo channel
unfolding drop_first
fifo = record {
  queued = λ c. c;
  taken = drop_first;
  ready_keeps = λ h w c. refl;
  flush_keeps = λ w c. refl;
  sends = sends_last;
  takes = drops_first;
}

abbrev one : Mode → Conn
one mode = record start { mode = mode; next_id = 3; fresh = 1; streams = (1, 0) ∷ [] }

abbrev end : Mode → Flag → End (List StreamCommand) (List Frame) (List StreamCommand)
end mode flag = record {
  conn = one mode;
  handle = record { id = 1; address = 0; flag = flag };
  channel = [];
  written = [];
  got = [];
}

abbrev pub L : Type 0
L = Link (List StreamCommand) (List Frame) (List StreamCommand)

abbrev opened : L
opened = record { left = end client no_flag; right = end server ack_first; out = []; back = [] }

opened-Opened : Opened channel fifo opened
unfolding Shared.new FlowControl.new Active.new get can_read can_write fifo
opened-Opened = record {
  left = record {
    id = refl;
    flag = λ p. cc;
    queue = refl;
    listed = refl;
    readable = refl;
    writable = refl;
    buffer = Content.new_lem.0;
    empty = Content.new_lem.1;
    windows = refl;
    room = omega arith;
    written = refl;
    got = refl;
  };
  right = record {
    id = refl;
    flag = λ p. cc;
    queue = refl;
    listed = refl;
    readable = refl;
    writable = refl;
    buffer = Content.new_lem.0;
    empty = Content.new_lem.1;
    windows = refl;
    room = omega arith;
    written = refl;
    got = refl;
  };
  out = refl;
  back = refl;
}

-- The client writes three bytes, and its connection sends them.
abbrev written_three : L
written_three = record opened {
  left = call channel context (Call.write (1 ∷ 2 ∷ 3 ∷ [])) opened.left;
}

abbrev sent_three : L
sent_three = carry channel fifo written_three

abbrev received : L
received = flip (deliver add_receiver 0 0 (flip sent_three))

sent_three-Reach : Reach channel fifo add_receiver opened sent_three
sent_three-Reach =
    Link.then_step written_three sent_three
      (Link.then_step opened written_three Link.here
        (Link.called context (Call.write (1 ∷ 2 ∷ 3 ∷ [])) opened))
      (Link.carried written_three)

abbrev three_bytes : Frame
three_bytes = record { header = data_header 1 3; body = 1 ∷ 2 ∷ 3 ∷ [] }

never_refused_example :
    (on_frame add_receiver 0 0 three_bytes sent_three.right.conn).0 ≡ ok no_action
unfolding carry call run fifo drop_first poll_write write_some can_write Active.new Shared.new
    Shared.consume_send_window FlowControl.new FlowControl.consume_send_window write_body
    command_frame data_header
never_refused_example =
    never_refused channel fifo add_receiver opened sent_three (inl opened-Opened) sent_three-Reach
      false 0 0 three_bytes [] refl

-- The client has used up its credit, and the server has read all.
abbrev used_up : L
used_up = record opened {
  left = record (opened.left) {
    conn = record (one client) {
      heap = λ a. record plain { flow = record (plain.flow) { send_window = 0 } };
    };
  };
  right = record (opened.right) {
    conn = record (one server) {
      heap = λ a. record plain { flow = record (plain.flow) { receive_window = 0 } };
    };
  };
}

used_up-Opened : Opened channel fifo used_up
unfolding Shared.new FlowControl.new Active.new get can_read can_write fifo
used_up-Opened = record {
  left = record {
    id = refl;
    flag = λ p. cc;
    queue = refl;
    listed = refl;
    readable = refl;
    writable = refl;
    buffer = Content.new_lem.0;
    empty = Content.new_lem.1;
    windows = refl;
    room = omega arith;
    written = refl;
    got = refl;
  };
  right = record {
    id = refl;
    flag = λ p. cc;
    queue = refl;
    listed = refl;
    readable = refl;
    writable = refl;
    buffer = Content.new_lem.0;
    empty = Content.new_lem.1;
    windows = refl;
    room = omega arith;
    written = refl;
    got = refl;
  };
  out = refl;
  back = refl;
}

used_up-Starved : Starved channel context (Call.read 2) used_up fifo []
unfolding Shared.new FlowControl.new Active.new can_write fifo frames_of bodies credits is_read
used_up-Starved = record {
  writable = refl;
  no_window = refl;
  no_bytes = refl;
  no_credit = refl;
  all_read = Content.new_lem.1;
  inv = record {
    config = default-IsValid;
    streams = omega arith;
    max_u32 = omega arith;
    max_least = omega arith;
    within = omega arith;
    counted = omega arith;
    spared = omega arith;
    unmeasured = λ p. refl;
  };
  allowed = refl;
  room = refl;
  reads = refl;
}

released_example :
    0 < credits (ahead channel fifo (flip (read_right channel context (Call.read 2) used_up)))
released_example =
    released channel fifo add_receiver used_up used_up (inl used_up-Opened) Link.here context
      (Call.read 2) [] used_up-Starved
