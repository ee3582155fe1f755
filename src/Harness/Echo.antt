-- ===== src/Harness/Echo.antt =====
-- `EchoServer`: a task that sends back what comes in, for each stream of the remote.
use rust_yamux.Common.{
  ℕ, Bool, true, false, Option, none, some, if◌then◌else◌, Result, ok, err, Poll, ready, pending,
  panicked, stuck,
}
use rust_yamux.Common.Words.{checked_add_usize}
use rust_yamux.Error.{ConnectionError}
use rust_yamux.Connection.Active.{Handle}
use rust_yamux.Harness.{Peer, Workers, run}

pub record EchoServer (S W : Type 0) : Type 0 where
  pub connection : S
  pub worker_streams : W
  pub streams_processed : ℕ
  pub connection_closed : Bool

abbrev pub Output : Type 0
Output = Poll (Result ConnectionError ℕ)

-- How a worker ends.
abbrev pub Ended : Type 0
Ended = Result ConnectionError (Unit {0})

abbrev pub Turn : Type 0 → Type 0 → Type 0
Turn S W = Option Output × EchoServer S W

module _ {S W : Type 0} (peer : Peer S) (workers : Workers W Handle Ended) where
  unfoldable pub new : S → W → EchoServer S W
  new connection none_yet = record {
    connection = connection;
    worker_streams = none_yet;
    streams_processed = 0;
    connection_closed = false;
  }

  -- The answer of the connection.
  unfoldable pub accept :
      Poll (Option (Result ConnectionError Handle)) × S → EchoServer S W → Turn S W
  accept (ready (some (ok h)), s) c =
      (none, record c { connection = s; worker_streams = workers.push h c.worker_streams })
  accept (ready (some (err e)), s) c = (none, record c { connection = s; connection_closed = true })
  accept (ready none, s) c = (none, record c { connection = s; connection_closed = true })
  accept (pending, s) c = (some pending, record c { connection = s })
  accept (panicked, s) c = (some panicked, record c { connection = s })
  accept (stuck, s) c = (some stuck, record c { connection = s })

  -- The answer of the workers.
  unfoldable pub collect : Poll (Option Ended) × W → EchoServer S W → Turn S W
  unfolding accept
  collect (ready (some (ok u)), w) c = elim (checked_add_usize c.streams_processed 1) [
    | none ↦ (some panicked, record c { worker_streams = w })
    | some n ↦ (none, record c { worker_streams = w; streams_processed = n })
  ]
  collect (ready (some (err e)), w) c = (none, record c { worker_streams = w })
  collect (ready none, w) c =
      if c.connection_closed
      then (some (ready (ok c.streams_processed)), record c { worker_streams = w })
      else accept (peer.poll_next_inbound c.connection) (record c { worker_streams = w })
  collect (pending, w) c =
      accept (peer.poll_next_inbound c.connection) (record c { worker_streams = w })
  collect (panicked, w) c = (some panicked, record c { worker_streams = w })
  collect (stuck, w) c = (some stuck, record c { worker_streams = w })

  unfoldable pub turn : EchoServer S W → Turn S W
  unfolding collect
  turn c = collect (workers.poll_next c.worker_streams) c

  unfoldable pub poll : ℕ → EchoServer S W → Output × EchoServer S W
  poll fuel c = run turn fuel c
