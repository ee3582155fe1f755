-- ===== src/Connection/Active.antt =====
-- `Active`: the healthy connection, and what it does about each incoming frame and each new stream.
-- The socket, the set of command receivers and the clock are no code of the crate: `T` and `R` are
-- their states, `push` adds the receiver of a new stream, and a reading of the clock is an argument.
-- A waker is the number of a task; `woken` logs the wake-ups.

use rust_yamux.Common.{ℕ, Option, none, some, List, [], ◌∷◌, ◌++◌, ◌==◌, if◌then◌else◌}
use rust_yamux.Config.{Config}
use rust_yamux.Frame.{Frame}
use rust_yamux.Rtt.{Rtt}
use rust_yamux.Rtt
use rust_yamux.Stream.State
use rust_yamux.Stream.State.{Flag, ack_first, syn_first}
use rust_yamux.Stream.Shared.{Shared, update_state}
use rust_yamux.Connection.StreamMap.{StreamMap}

pub data Mode : Type 0 where
  client server : Mode

-- The `Stream` that a user gets: its shared state lies at `address`.
pub record Handle : Type 0 where
  pub id : ℕ
  pub address : ℕ
  pub flag : Flag

pub record Active (R T : Type 0) : Type 0 where
  pub mode : Mode
  pub config : Config
  pub socket : T
  pub next_id : ℕ
  pub streams : StreamMap
  pub heap : ℕ → Shared
  pub fresh : ℕ
  pub receivers : R
  pub no_streams_waker : Option ℕ
  pub pending_read_frame : Option Frame
  pub pending_write_frame : Option Frame
  pub new_outbound_stream_waker : Option ℕ
  pub rtt : Rtt
  pub counter : ℕ
  pub woken : List ℕ

abbrev pub waker_list : Option ℕ → List ℕ
waker_list none = []
waker_list (some w) = w ∷ []

abbrev pub write : (ℕ → Shared) → ℕ → Shared → ℕ → Shared
write heap a s b = if b == a then s else heap b

module _ {R T : Type 0} where
  -- `Active::new`.
  unfoldable pub new : R → T → Config → Mode → ℕ → (ℕ → Shared) → Active R T
  unfolding Rtt.new
  new receivers socket config mode now heap = record {
    mode = mode;
    config = config;
    socket = socket;
    next_id = elim mode [ client ↦ 1 | server ↦ 2 ];
    streams = [];
    heap = heap;
    fresh = 0;
    receivers = receivers;
    no_streams_waker = none;
    pending_read_frame = none;
    pending_write_frame = none;
    new_outbound_stream_waker = none;
    rtt = Rtt.new now;
    counter = 0;
    woken = [];
  }

  -- A new value for the shared state at an address.
  abbrev pub set_shared : ℕ → Shared → Active R T → Active R T
  set_shared a s c = record c { heap = write c.heap a s }

  -- `if let Some(w) = shared.reader.take() { w.wake() }`, and so for the writer.
  abbrev pub wake_reader : ℕ → Active R T → Active R T
  wake_reader a c = record c {
    heap = write c.heap a (record (c.heap a) { reader = none });
    woken = c.woken ++ waker_list (c.heap a).reader;
  }

  abbrev pub wake_writer : ℕ → Active R T → Active R T
  wake_writer a c = record c {
    heap = write c.heap a (record (c.heap a) { writer = none });
    woken = c.woken ++ waker_list (c.heap a).writer;
  }

  abbrev pub update_at : ℕ → State.State → Active R T → Active R T
  update_at a next c = set_shared a (update_state (c.heap a) next).1 c

  -- The state at `a` becomes closed, and both halves are woken.
  unfoldable pub close_at : ℕ → Active R T → Active R T
  unfolding update_state
  close_at a c = wake_writer a (wake_reader a (update_at a State.closed c))

  unfoldable pub drop_all : StreamMap → Active R T → Active R T
  unfolding close_at
  drop_all [] c = c
  drop_all ((id, a) ∷ m) c = drop_all m (close_at a c)

  unfoldable pub drop_all_streams : Active R T → Active R T
  unfolding drop_all
  drop_all_streams c = record (drop_all c.streams c) { streams = [] }
