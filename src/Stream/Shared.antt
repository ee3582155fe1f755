-- ===== src/Stream/Shared.antt =====
-- `Shared`: what the handle of a stream and its connection share. A waker is the number of a task.
use rust_yamux.Common.{ℕ, Bool, Option, none, Result, ok, err}
use rust_yamux.Error.{ConnectionError}
use rust_yamux.Chunks
use rust_yamux.Chunks.{Chunks}
use rust_yamux.FlowControl
use rust_yamux.FlowControl.{FlowController}
use rust_yamux.Stream.State.{State, opened, next_state, is_pending}
use rust_yamux.Common.{false}

pub record Shared : Type 0 where
  pub state : State
  pub flow : FlowController
  pub buffer : Chunks
  pub reader : Option ℕ
  pub writer : Option ℕ

unfoldable pub new : ℕ → ℕ → ℕ → Shared
unfolding Chunks.new FlowControl.new
new receive send now = record {
  state = opened false;
  flow = FlowControl.new receive send now;
  buffer = Chunks.new;
  reader = none;
  writer = none;
}

-- The state before the update, and the value after it.
unfoldable pub update_state : Shared → State → State × Shared
unfolding next_state
update_state s next = (s.state, record s { state = next_state s.state next })

unfoldable pub is_pending_ack : Shared → Bool
unfolding is_pending
is_pending_ack s = is_pending s.state

-- `with_flow` puts a controller back; an error leaves the value as it was.
abbrev pub with_flow :
    Shared → Result ConnectionError FlowController → Result ConnectionError Shared
with_flow s (ok fc) = ok (record s { flow = fc })
with_flow s (err e) = err e

unfoldable pub consume_send_window : Shared → ℕ → Result ConnectionError Shared
consume_send_window s i = with_flow s (FlowControl.consume_send_window s.flow i)

unfoldable pub increase_send_window_by : Shared → ℕ → Result ConnectionError Shared
increase_send_window_by s i = with_flow s (FlowControl.increase_send_window_by s.flow i)

unfoldable pub consume_receive_window : Shared → ℕ → Result ConnectionError Shared
consume_receive_window s i = with_flow s (FlowControl.consume_receive_window s.flow i)
