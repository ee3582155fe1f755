-- ===== src/Session.antt =====
-- Two connections and a stream between them: connection/stream.rs and connection.rs put together.
-- The handle of each end sends commands over its channel to its connection, which writes their frames
-- to a wire, where the other connection reads them. The channel and the wire keep their order.
pub mod Flight
pub mod Sent
pub mod Calls
pub mod Arrival
pub mod Direction
pub mod Link
pub mod Dial
pub mod Dialled
pub mod Steps
pub mod Transfer
pub mod Progress
pub mod Backlog
use rust_yamux.Common.{
  ℕ, ◌≡◌, List, [], ◌∷◌, ◌++◌, Option, none, some, Result, ok, err, Poll, ready, pending, take,
  length,
}
use rust_yamux.Frame.{Frame}
use rust_yamux.Stream.Shared.{Shared}
use rust_yamux.Stream.Handle.{
  Channel, Half, StreamCommand, Stream, Context, poll_write, poll_flush, poll_close,
}
use rust_yamux.Stream.Reader.{poll_read, poll_next}
use rust_yamux.Connection.StreamMap.{get}
use rust_yamux.Connection.Active.{Active, Handle, set_shared}
use rust_yamux.Connection.Handlers.{on_frame}
use rust_yamux.Connection.Wires.{command_frame}

-- What `mpsc` documents: a sender that is ready takes the next command, which goes to the end of the
-- queue; the receiver takes commands off its front, and nothing else moves them.
pub record Fifo {C : Type 0} (ch : Channel C) : Type 0 where
  pub queued : C → List StreamCommand
  pub taken : C → C
  pub ready_keeps : (h : Half) (w : ℕ) (c : C) → queued (ch.poll_ready h w c).1 ≡ queued c
  pub flush_keeps : (w : ℕ) (c : C) → queued (ch.poll_flush w c).1 ≡ queued c
  pub sends :
      (h : Half) (w : ℕ) (cmd : StreamCommand) (c c' : C)
      → ch.poll_ready h w c ≡ (ready (ok tt), c')
      → ((ch.start_send h cmd c').0 ≡ ok tt)
        × (queued (ch.start_send h cmd c').1 ≡ queued c ++ (cmd ∷ []))
  pub takes :
      (cmd : StreamCommand) (cmds : List StreamCommand) (c : C)
      → queued c ≡ cmd ∷ cmds
      → queued (taken c) ≡ cmds

-- One end: the connection, the handle of the stream with its channel, and a log of the bytes that
-- the calls of the user have reported as written and as read.
pub record End (R T C : Type 0) : Type 0 where
  pub conn : Active R T
  pub handle : Handle
  pub channel : C
  pub written : List ℕ
  pub got : List ℕ

-- The call of a user on the handle.
pub data Call : Type 0 where
  write : List ℕ → Call
  read : ℕ → Call
  next_packet flush close : Call

-- The bytes that a result reports.
unfoldable pub reported_written : List ℕ → Poll (Result ℕ ℕ) → List ℕ
reported_written buf (ready (ok n)) = take n buf
reported_written buf _ = []

unfoldable pub reported_read : Poll (Result ℕ (List ℕ)) → List ℕ
reported_read (ready (ok bytes)) = bytes
reported_read _ = []

unfoldable pub reported_packet : Poll (Option (Result ℕ (List ℕ))) → List ℕ
reported_packet (ready (some (ok bytes))) = bytes
reported_packet _ = []

module _ {R T C : Type 0} where
  -- The handle with the state that it shares with its connection.
  abbrev pub stream_of : End R T C → Stream C
  stream_of e = record {
    id = e.handle.id;
    flag = e.handle.flag;
    channel = e.channel;
    shared = e.conn.heap e.handle.address;
    counter = e.conn.counter;
  }

  -- The end after a call that left the handle as `s` and reported the bytes.
  abbrev pub after_call : Stream C → List ℕ → List ℕ → End R T C → End R T C
  after_call s written got e = record {
    conn = record (set_shared e.handle.address s.shared e.conn) { counter = s.counter };
    handle = record (e.handle) { flag = s.flag };
    channel = s.channel;
    written = e.written ++ written;
    got = e.got ++ got;
  }

module _ {C : Type 0} (ch : Channel C) where
  -- The handle after a call, and the bytes that the call reports as written and as read.
  unfoldable pub run : Context → Call → Stream C → Stream C × List ℕ × List ℕ
  unfolding reported_written reported_read reported_packet
  run cx (write buf) s = let (r, t) = poll_write ch cx buf s in (t, reported_written buf r, [])
  run cx (read want) s = let (r, t) = poll_read ch cx want s in (t, [], reported_read r)
  run cx next_packet s = let (r, t) = poll_next ch cx s in (t, [], reported_packet r)
  run cx flush s = ((poll_flush ch cx s).1, [], [])
  run cx close s = ((poll_close ch cx s).1, [], [])

module _ {R T C : Type 0} (ch : Channel C) where
  unfoldable pub call : Context → Call → End R T C → End R T C
  unfolding run
  call cx c e = let (t, w, g) = run ch cx c (stream_of e) in after_call t w g e
