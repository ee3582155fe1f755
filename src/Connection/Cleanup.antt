-- ===== src/Connection/Cleanup.antt =====
-- connection/cleanup.rs: the end of a connection after an error.
pub mod Ends
use rust_yamux.Common.{ℕ, zero, suc, Option, none, some, Poll, ready, panicked, stuck}
use rust_yamux.Error.{ConnectionError}
use rust_yamux.Frame.Io.{go_on}
use rust_yamux.Connection.Wires.{Next, blocked, ended, item, Receivers}

pub data State : Type 0 where
  closing_stream_receiver draining_stream_receiver : State

pub record Cleanup (R : Type 0) : Type 0 where
  pub state : State
  pub stream_receivers : R
  pub error : Option ConnectionError

unfoldable pub new : {R : Type 0} → R → ConnectionError → Cleanup R
new receivers e = record {
  state = closing_stream_receiver;
  stream_receivers = receivers;
  error = some e;
}

module _ {R : Type 0} where
  -- `self.error.take().expect(…)`.
  finish : Option ConnectionError → Cleanup R → Option (Poll ConnectionError) × Cleanup R
  finish (some e) c = (some (ready e), record c { error = none })
  finish none c = (some panicked, c)

  drain : Cleanup R → Next × R → Option (Poll ConnectionError) × Cleanup R
  unfolding finish
  drain c (item id cmd, r) = (none, record c { stream_receivers = r })
  drain c (blocked, r) = finish c.error (record c { stream_receivers = r })
  drain c (ended, r) = finish c.error (record c { stream_receivers = r })

  unfoldable pub turn : Receivers R → State → Cleanup R → Option (Poll ConnectionError) × Cleanup R
  unfolding drain
  turn recv closing_stream_receiver c = (
    none,
    record c {
      stream_receivers = recv.close_all c.stream_receivers;
      state = draining_stream_receiver;
    },
  )
  turn recv draining_stream_receiver c = drain c (recv.poll_next c.stream_receivers)

  unfoldable pub poll : Receivers R → ℕ → Cleanup R → Poll ConnectionError × Cleanup R
  unfolding turn
  poll recv zero c = (stuck, c)
  poll recv (suc n) c = go_on (poll recv n) (turn recv c.state c)
