-- ===== src/Lib.antt =====
-- Verification library of rust-yamux, an implementation of the yamux protocol, which multiplexes
-- streams of bytes over one connection.
--
-- The program. A `Connection` (yamux/src/connection.rs) is a state machine: `Active` while it is
-- healthy, `Closing` (connection/closing.rs) while it says goodbye, `Cleanup` (connection/cleanup.rs)
-- after an error, then closed. `Active` reads frames from the socket (frame/io.rs, with the codec in
-- frame/header.rs), changes the shared states of the streams that they name, and answers with an
-- action. A user holds a `Stream` (connection/stream.rs), which shares its state with the connection,
-- reads from the queue of chunks (chunks.rs) that the connection fills, and sends commands to the
-- connection over a channel. Each stream has a flow controller (connection/stream/flow_control.rs),
-- which takes its window from an allowance that all streams share, and measures the round-trip time
-- that the connection finds out by pings (connection/rtt.rs).
--
-- The files, with the paths under yamux/src of the code.
--   Config            lib.rs: constants, `Config` and its setters
--   Frame             frame.rs; Frame.Header is frame/header.rs, Frame.Io is frame/io.rs
--   Error             error.rs and the decoding errors of frame/io.rs
--   Chunks            chunks.rs
--   FlowControl       connection/stream/flow_control.rs
--   Rtt               connection/rtt.rs
--   Stream.State      the states and flags of connection/stream.rs
--   Stream.Shared     `Shared`; Stream.Handle and Stream.Reader are `Stream`
--   Connection.Active `Active`; Opening, Removal, Handlers and Poll are its functions
--   Connection.Wires  what a connection stands on, and tagged_stream.rs
--   Connection.Closing, Connection.Cleanup, Connection.Machine  the other states and `Connection`
--   Session           two connections and a stream between them: both ends, their channels and wires
--   Harness           test-harness/src/lib.rs (a path from the root): Harness.Opener, Harness.Echo and
--                     Harness.Sender are its three tasks
--   Common            shared names, lists, outcomes, machine words and bits
--   Tests             the theorems at concrete inputs
-- The other modules hold proofs and are named for what they prove.
--
-- How the parts meet. `Session` puts two `Active` connections together. Each end has the handle of
-- the stream, whose calls are those of Stream.Handle and Stream.Reader on the state in the heap of its
-- connection; `carry` takes a command off the channel and puts its frame on the wire; `deliver` has the
-- other connection read it by `on_frame`. Session.Link lists these steps, with any work of a
-- connection that leaves the stream alone, and runs are sequences of them. Session.Dialled says how a
-- stream begins. Session.Backlog runs one connection with the handles of its streams. The tasks of
-- Harness take a connection as an interface, `Peer`, which `connection_peer` fills with the functions of
-- Connection.Machine.
--
-- How state is modelled. Functions that change a value take it and return it. The shared states of
-- the streams lie in a heap of `Active`, and the map of streams holds their addresses, since the
-- handle of a user refers to the same state. Where a `Connection` is no longer active, the states and
-- the log of wake-ups go on in the `Store` beside it, as the handles keep them. A mutex is left out: each call is one step. The clock
-- is an argument, as a number of nanoseconds. A waker is the number of a task, and `woken` logs the
-- wake-ups of a connection. `Poll` has two ends besides those of Rust: `panicked`, for a failed
-- assertion, a slice out of range or an overflow of a debug build, and `stuck`, for a loop that has
-- used up its fuel. A `u32` and a `usize` of 64 bits are native numbers with their bounds written out.
--
-- Fuel. The loops of `Io::poll_ready`, `Io::poll_next`, `Closing::poll` and `Cleanup::poll` are
-- recursion on fuel over one turn; each has a theorem on the fuel that is enough: the bytes that are
-- left of a frame, the megabyte of the longest body and 15 turns, or the frames and commands that
-- are left. `Stream::poll_read` takes its fuel from the number of chunks. `Active::poll` takes fuel as
-- an argument, as a peer may keep it busy for ever, and `EchoServer::poll` likewise. `MessageSender` needs
-- two turns for each message and one for each worker, `OpenStreamsClient` one for each stream and one
-- more. The functions of `Connection` go through three states at most.
--
-- Parameters. The socket (`AsyncRead`, `AsyncWrite`), the channels (`mpsc`) and `SelectAll` belong to
-- other crates: they are records of functions, with records of laws where a theorem relies on what
-- they document. An `io::Error` is the number of its kind.
--
-- Not modelled: formatting, logging, the identifier of a connection in logs, the quickcheck
-- generators, the asynchronous blocks and functions of the test harness, which only call the streams,
-- its sockets, and the tests and benches. The wire between two connections carries frames: that the
-- bytes of the socket give the same frames is what the modules below Frame.Io are about.
pub mod Common
pub mod Config
pub mod Frame
pub mod FlowControl
pub mod Error
pub mod Chunks
pub mod Action
pub mod Rtt
pub mod Stream
pub mod Connection
pub mod Session
pub mod Harness
pub mod Tests
