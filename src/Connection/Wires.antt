-- ===== src/Connection/Wires.antt =====
-- What a connection stands on: the set of command receivers of its streams
-- (`SelectAll<TaggedStream<StreamId, mpsc::Receiver<StreamCommand>>>`, of the futures crate), and the
-- framed socket, which `Frame.Io` implements. Also tagged_stream.rs.
use rust_yamux.Common.{
  ℕ, Bool, true, false, Option, none, some, Poll, ready, pending, panicked, stuck, if◌then◌else◌,
}
use rust_yamux.Frame.{Frame}
use rust_yamux.Frame.Io.{
  Socket, Io, WriteResult, ReadResult, poll_ready, start_send, poll_flush, poll_close, poll_next,
}
use rust_yamux.Stream.Handle.{StreamCommand}
use rust_yamux.Frame

-- `Poll<Option<(StreamId, Option<StreamCommand>)>>`.
pub data Next : Type 0 where
  blocked ended : Next
  item : ℕ → Option StreamCommand → Next

-- The commands of all streams: a stream's handle is gone where an item has no command.
pub record Receivers (R : Type 0) : Type 0 where
  pub close_all : R → R
  pub poll_next : R → Next × R

-- The sink and the stream of frames that the connection uses.
pub record Wire (T : Type 0) : Type 0 where
  pub poll_ready : T → WriteResult × T
  pub start_send : Frame → T → T
  pub poll_flush : T → WriteResult × T
  pub poll_close : T → WriteResult × T
  pub poll_next : T → ReadResult × T

-- `Io` as a wire, with fuel for its two loops. `start_send` never fails.
abbrev pub io_wire : {T : Type 0} → Socket T → ℕ → Wire (Io T)
io_wire sock fuel = record {
  poll_ready = poll_ready sock fuel;
  start_send = start_send;
  poll_flush = poll_flush sock fuel;
  poll_close = poll_close sock fuel;
  poll_next = poll_next sock fuel;
}

-- The frame of a command of the stream `id`.
unfoldable pub command_frame : ℕ → StreamCommand → Frame
command_frame id (StreamCommand.send_frame f) = f
command_frame id (StreamCommand.close_stream ack) = Frame.close_stream id ack

-- `TaggedStream`: a stream of `A` with its key, which reports the end once before it ends.
pub record TaggedStream (S : Type 0) : Type 0 where
  pub key : ℕ
  pub inner : S
  pub reported_none : Bool

unfoldable pub new : {S : Type 0} → ℕ → S → TaggedStream S
new key inner = record { key = key; inner = inner; reported_none = false }

abbrev pub Tagged : Type 0 → Type 0
Tagged A = Poll (Option (ℕ × Option A))

unfoldable pub tagged :
    {A S : Type 0} → TaggedStream S → Poll (Option A) × S → Tagged A × TaggedStream S
tagged t (ready (some a), s) = (ready (some (t.key, some a)), record t { inner = s })
tagged t (ready none, s) =
    (ready (some (t.key, none)), record t { inner = s; reported_none = true })
tagged t (pending, s) = (pending, record t { inner = s })
tagged t (panicked, s) = (panicked, record t { inner = s })
tagged t (stuck, s) = (stuck, record t { inner = s })

unfoldable pub tagged_next :
    {A S : Type 0} → (S → Poll (Option A) × S) → TaggedStream S → Tagged A × TaggedStream S
unfolding tagged
tagged_next inner t = if t.reported_none then (ready none, t) else tagged t (inner t.inner)
