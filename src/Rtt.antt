-- ===== src/Rtt.antt =====
-- connection/rtt.rs: the measurement of the round-trip time by pings. A time is a number of
-- nanoseconds; the caller reads the clock. The mutex and the atomic counter are shared by the
-- clones of `Rtt`, which all stand for this one state.
pub mod Protocol
use rust_yamux.Common.{ℕ, ◌+◌, ◌-◌, ◌*◌, ◌%◌, ◌^◌, Option, none, some, ltb, ◌==◌, if◌then◌else◌}
use rust_yamux.Frame.{Frame, protocol_error}
use rust_yamux.Frame
use rust_yamux.Action.{Action, no_action, terminate}

pub data RttState : Type 0 where
  awaiting_pong : (sent_at id : ℕ) → RttState
  waiting : (next : ℕ) → RttState

pub record Rtt : Type 0 where
  pub state : RttState
  pub rtt : Option ℕ
  pub next_id : ℕ

-- `Duration::from_secs(10)`.
abbrev pub ping_interval : ℕ
ping_interval = 10 * 1_000_000_000

unfoldable pub new : ℕ → Rtt
new now = record { state = waiting now; rtt = none; next_id = 0 }

-- The ping that is due. `fetch_add` wraps. `sent` is the second reading of the clock.
send_ping : ℕ → Rtt → Option Frame × Rtt
send_ping sent r = (
  some (Frame.ping r.next_id),
  record r { state = awaiting_pong sent r.next_id; next_id = (r.next_id + 1) % 2 ^ 32 },
)

due : RttState → ℕ → ℕ → Rtt → Option Frame × Rtt
unfolding send_ping
due (awaiting_pong _ _) now sent r = (none, r)
due (waiting next) now sent r = if ltb now next then (none, r) else send_ping sent r

unfoldable pub next_ping : ℕ → ℕ → Rtt → Option Frame × Rtt
unfolding due
next_ping now sent r = due r.state now sent r

match_pong : {S : Type 0} → RttState → ℕ → ℕ → ℕ → Rtt → Action S × Rtt
match_pong (waiting _) received now later r = (terminate protocol_error, r)
match_pong (awaiting_pong sent_at id) received now later r =
    if received == id
    then (
      no_action,
      record r { rtt = some (now - sent_at); state = waiting (later + ping_interval) },
    )
    else (terminate protocol_error, r)

-- `now` is read by `sent_at.elapsed()`, `later` for the next ping.
unfoldable pub handle_pong : {S : Type 0} → ℕ → ℕ → ℕ → Rtt → Action S × Rtt
unfolding match_pong
handle_pong received now later r = match_pong r.state received now later r

-- `Rtt::get`.
abbrev pub get : Rtt → Option ℕ
get r = r.rtt
