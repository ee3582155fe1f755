-- ===== src/Tests/Sending.antt =====
-- connection.rs: the poll loop on a wire that gives back what it was handed.
use rust_yamux.Common.{
  refl, inl, All, All-append, List, ◌∷◌, false, pending, ready, [], arith, some, ok, ◌++◌, inl,
}
use rust_yamux.Frame.Header
use rust_yamux.Frame.{Frame}
use rust_yamux.Frame.Io.{ReadResult}
use rust_yamux.Rtt
use rust_yamux.Stream.Handle.{StreamCommand}
use rust_yamux.Connection.Active
use rust_yamux.Connection.Wires.{Wire}
use rust_yamux.Connection.Poll
use rust_yamux.Connection.Poll.Sends.{Carried}
use rust_yamux.Connection.Poll.Sends.Handlers.{Sends}
use rust_yamux.Config.{default_split_send_size}
use rust_yamux.Stream.State.{no_flag}
use rust_yamux.Stream.Handle.{add_flag}
use rust_yamux.Connection.Poll.Sends.Commands.{Commanded}
use rust_yamux.Connection.Poll.Sends.Loop.{Yields, CarriesFrames, BringsCommands, Reads, poll-Sends}
use rust_yamux.Tests.Connections.{two, commands, next_command, add_receiver, Conn}
use rust_yamux.Tests.Machines.{ticks}

abbrev front : List Frame → ReadResult × List Frame
front [] = (pending, [])
front (f ∷ t) = (ready (some (ok f)), t)

abbrev loopback : Wire (List Frame)
loopback = record {
  poll_ready = λ t. (ready (ok tt), t);
  start_send = λ f t. t ++ (f ∷ []);
  poll_flush = λ t. (ready (ok tt), t);
  poll_close = λ t. (ready (ok tt), t);
  poll_next = front;
}

abbrev AllCarried : List Frame → Type 0
AllCarried t = All Carried t

abbrev AllCommands : List StreamCommand → Type 0
AllCommands r = All (Commanded default_split_send_size) r

front-Reads : (t : List Frame) → AllCarried t → Reads (front t).0 × AllCarried (front t).1
front-Reads [] h = (tt, tt)
front-Reads (f ∷ t) h = (h.0.0.length_u32, h.1)

loopback-CarriesFrames : CarriesFrames loopback AllCarried
loopback-CarriesFrames = record {
  readies = λ t h. h;
  flushes = λ t h. h;
  reads = front-Reads;
  sends = λ f t p h. All-append Carried t (f ∷ []) h (p, tt);
}

next_command-Yields :
    (r : List StreamCommand)
    → AllCommands r
    → Yields default_split_send_size (next_command r).0 × AllCommands (next_command r).1
next_command-Yields [] h = (tt, tt)
next_command-Yields (c ∷ r) h = ((omega arith, h.0), h.1)

commands-BringsCommands : BringsCommands add_receiver commands default_split_send_size AllCommands
commands-BringsCommands = record { pushes = λ id a r h. h; yields = next_command-Yields }

-- Two bytes are written to a stream of the client, which is then closed.
abbrev piece : Frame
piece = record { header = Header.data_header 1 2; body = 7 ∷ 8 ∷ [] }

abbrev leaving : Conn
leaving = record two {
  receivers = StreamCommand.send_frame piece ∷ StreamCommand.close_stream false ∷ [];
}

leaving-Sends : Sends AllCarried AllCommands leaving
unfolding Active.new Rtt.new add_flag
leaving-Sends = (
  tt,
  (inl (no_flag, 1, 7 ∷ 8 ∷ [], omega arith, omega arith, refl), (tt, tt)),
  tt,
  tt,
  omega arith,
)

poll-Sends_example :
    Sends AllCarried AllCommands (Poll.poll add_receiver commands loopback ticks 6 leaving).1
poll-Sends_example =
    poll-Sends AllCarried AllCommands add_receiver commands loopback default_split_send_size
      (omega arith) commands-BringsCommands loopback-CarriesFrames ticks 6 leaving leaving-Sends
