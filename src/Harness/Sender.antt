-- ===== src/Harness/Sender.antt =====
-- `MessageSender`: a task that sends each message over a stream of its own.
pub mod Counts
use rust_yamux.Common.{
  ℕ, Bool, true, false, ◌&&◌, Option, none, some, List, [], ◌∷◌, if◌then◌else◌, Result, ok, err,
  Poll, ready, pending, panicked, stuck,
}
use rust_yamux.Common.Words.{checked_add_usize}
use rust_yamux.Error.{ConnectionError}
use rust_yamux.Connection.Active.{Handle}
use rust_yamux.Harness.{Peer, Workers, run}

pub data MessageSenderStrategy : Type 0 where
  send_recv send : MessageSenderStrategy

-- `Msg`: its bytes.
abbrev pub Msg : Type 0
Msg = List ℕ

-- What the block that works on a stream is given.
pub record Job : Type 0 where
  pub stream : Handle
  pub message : Msg
  pub multiplier : ℕ
  pub strategy : MessageSenderStrategy
  pub spawned : Bool

-- The vector of the messages is a list with its last element first, which `pop` takes.
pub record MessageSender (S W : Type 0) : Type 0 where
  pub connection : S
  pub pending_messages : List Msg
  pub worker_streams : W
  pub streams_processed : ℕ
  pub spawn_tasks : Bool
  pub message_multiplier : ℕ
  pub strategy : MessageSenderStrategy

abbrev pub Output : Type 0
Output = Poll (Result ConnectionError ℕ)

abbrev pub Turn : Type 0 → Type 0 → Type 0
Turn S W = Option Output × MessageSender S W

abbrev is_nil : List Msg → Bool
is_nil [] = true
is_nil (m ∷ ms) = false

module _ {S W : Type 0} where
  unfoldable pub new : S → List Msg → Bool → W → MessageSender S W
  new connection messages spawn_tasks none_yet = record {
    connection = connection;
    pending_messages = messages;
    worker_streams = none_yet;
    streams_processed = 0;
    spawn_tasks = spawn_tasks;
    message_multiplier = 1;
    strategy = send_recv;
  }

  unfoldable pub with_message_multiplier : MessageSender S W → ℕ → MessageSender S W
  with_message_multiplier c multiplier = record c { message_multiplier = multiplier }

  unfoldable pub with_strategy : MessageSender S W → MessageSenderStrategy → MessageSender S W
  with_strategy c strategy = record c { strategy = strategy }

  abbrev pub job_of : Handle → Msg → MessageSender S W → Job
  job_of h m c = record {
    stream = h;
    message = m;
    multiplier = c.message_multiplier;
    strategy = c.strategy;
    spawned = c.spawn_tasks;
  }

  -- `futures::ready!(this.connection.poll_close(cx)?)`, and the result.
  unfoldable pub finish :
      Poll (Result ConnectionError (Unit {0})) × S → MessageSender S W → Turn S W
  finish (ready (ok u), s) c = (some (ready (ok c.streams_processed)), record c { connection = s })
  finish (ready (err e), s) c = (some (ready (err e)), record c { connection = s })
  finish (pending, s) c = (some pending, record c { connection = s })
  finish (panicked, s) c = (some panicked, record c { connection = s })
  finish (stuck, s) c = (some stuck, record c { connection = s })

  -- The remote is expected neither to open a stream nor to close.
  unfoldable pub drive :
      Poll (Option (Result ConnectionError Handle)) × S → MessageSender S W → Turn S W
  drive (ready (some (ok h)), s) c = (some panicked, record c { connection = s })
  drive (ready (some (err e)), s) c = (some (ready (err e)), record c { connection = s })
  drive (ready none, s) c = (some panicked, record c { connection = s })
  drive (pending, s) c = (some pending, record c { connection = s })
  drive (panicked, s) c = (some panicked, record c { connection = s })
  drive (stuck, s) c = (some stuck, record c { connection = s })

module _ {S W : Type 0} (peer : Peer S) (workers : Workers W Job (Unit {0})) where
  -- The answer of the workers, and then the connection.
  unfoldable pub collect : Poll (Option (Unit {0})) × W → MessageSender S W → Turn S W
  unfolding drive
  collect (ready (some u), w) c = elim (checked_add_usize c.streams_processed 1) [
    | none ↦ (some panicked, record c { worker_streams = w })
    | some n ↦ (none, record c { worker_streams = w; streams_processed = n })
  ]
  collect (ready none, w) c =
      drive (peer.poll_next_inbound c.connection) (record c { worker_streams = w })
  collect (pending, w) c =
      drive (peer.poll_next_inbound c.connection) (record c { worker_streams = w })
  collect (panicked, w) c = (some panicked, record c { worker_streams = w })
  collect (stuck, w) c = (some stuck, record c { worker_streams = w })

  -- The answer to the request for a stream, for the message `m` that has been popped.
  unfoldable pub opened :
      Msg → Poll (Result ConnectionError Handle) × S → MessageSender S W → Turn S W
  unfolding collect
  opened m (ready (ok h), s) c = (
    none,
    record c { connection = s; worker_streams = workers.push (job_of h m c) c.worker_streams },
  )
  opened m (ready (err e), s) c = (some (ready (err e)), record c { connection = s })
  opened m (pending, s) c =
      let c' = record c { connection = s; pending_messages = m ∷ c.pending_messages } in
      collect (workers.poll_next c'.worker_streams) c'
  opened m (panicked, s) c = (some panicked, record c { connection = s })
  opened m (stuck, s) c = (some stuck, record c { connection = s })

  -- One turn.
  unfoldable pub turn : MessageSender S W → Turn S W
  unfolding finish collect opened
  turn c =
      if is_nil c.pending_messages && workers.is_empty c.worker_streams
      then finish (peer.poll_close c.connection) c
      else elim c.pending_messages [
        | [] ↦ collect (workers.poll_next c.worker_streams) c
        | m ∷ ms ↦
            opened m (peer.poll_new_outbound c.connection) (record c { pending_messages = ms })
      ]

  unfoldable pub poll : ℕ → MessageSender S W → Output × MessageSender S W
  poll fuel c = run turn fuel c
