-- ===== src/Stream/State.antt =====
-- The state of a stream and its transitions, and the flag that its next frame carries.
use rust_yamux.Common.{Bool, true, false}

-- `opened` is `State::Open`, with `acknowledged`.
pub data State : Type 0 where
  opened : Bool → State
  send_closed recv_closed closed : State

pub data Flag : Type 0 where
  no_flag syn_first ack_first : Flag

unfoldable pub can_read : State → Bool
can_read recv_closed = false
can_read closed = false
can_read _ = true

unfoldable pub can_write : State → Bool
can_write send_closed = false
can_write closed = false
can_write _ = true

-- The new state that `Shared::update_state` sets.
unfoldable pub next_state : State → State → State
next_state closed next = closed
next_state (opened a) next = next
next_state recv_closed closed = closed
next_state recv_closed (opened a) = recv_closed
next_state recv_closed recv_closed = recv_closed
next_state recv_closed send_closed = closed
next_state send_closed closed = closed
next_state send_closed (opened a) = send_closed
next_state send_closed recv_closed = closed
next_state send_closed send_closed = send_closed

-- `matches!(self.state(), State::Open { acknowledged: false })`.
unfoldable pub is_pending : State → Bool
is_pending (opened false) = true
is_pending _ = false
