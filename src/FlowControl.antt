-- ===== src/FlowControl.antt =====
-- connection/stream/flow_control.rs: the two windows of a stream. The counter
-- `accumulated_max_stream_windows`, which all streams of a connection share, and the measured
-- round-trip time are passed in and out; the clock is read by the caller.
-- A result `none` is a panic of a debug build: a failed assertion or an overflow.
pub mod Inv
pub mod Shared
use rust_yamux.Common.{
  ℕ, ◌+◌, ◌-◌, ◌*◌, ◌/◌, min, Bool, true, false, Option, none, some, ltb, leb, ◌==◌, if◌then◌else◌,
  ◌>>=◌, ◌>>◌, assert, Result, ok, err,
}
use rust_yamux.Common.Words.{
  checked_add_u32, checked_sub, checked_add_usize, checked_mul_usize, saturating_double,
  to_u32_or_max,
}
use rust_yamux.Config.{Config, window_limit, default_credit}
use rust_yamux.Error.{ConnectionError, invalid_window_update}

pub record FlowController : Type 0 where
  pub receive_window : ℕ
  pub max_receive_window : ℕ
  pub send_window : ℕ
  pub last_window_update : ℕ

-- `now` is `Instant::now()`.
unfoldable pub new : ℕ → ℕ → ℕ → FlowController
new receive send now = record {
  receive_window = receive;
  max_receive_window = default_credit;
  send_window = send;
  last_window_update = now;
}

-- The time that `Instant::elapsed` gives at `now`.
abbrev pub elapsed : ℕ → ℕ → ℕ
elapsed since now = now - since

-- `max_connection_receive_window - max_num_streams * DEFAULT_CREDIT`.
unfoldable pub spare : Config → Option ℕ
spare c = do
  least ← checked_mul_usize c.max_num_streams default_credit
  checked_sub (window_limit c) least

-- `if rtt.is_none() { assert_eq!(max_receive_window, DEFAULT_CREDIT) }`.
unfoldable pub check_rtt : Option ℕ → FlowController → Option (Unit {0})
check_rtt none fc = assert (fc.max_receive_window == default_credit)
check_rtt (some _) fc = some tt

unfoldable pub assert_invariants : Config → Option ℕ → ℕ → FlowController → ℕ → Option (Unit {0})
unfolding spare check_rtt
assert_invariants c rtt acc fc buffer_len = do
  assert (leb buffer_len fc.max_receive_window)
  assert (leb fc.receive_window fc.max_receive_window)
  extra ← checked_sub fc.max_receive_window default_credit
  room ← spare c
  assert (leb extra room)
  assert (leb extra acc)
  check_rtt rtt fc

-- The limit of the connection for the window of this stream, and the doubled window within it.
unfoldable pub new_max : Config → ℕ → FlowController → Option ℕ
unfolding spare
new_max c acc fc = do
  room ← spare c
  left ← checked_sub room acc
  connection_limit ← checked_add_usize fc.max_receive_window left
  some (min (saturating_double fc.max_receive_window) (to_u32_or_max connection_limit))

-- Whether half of the credit was used up in less than two round-trips.
unfoldable pub is_fast : Option ℕ → ℕ → Bool
is_fast none since = false
is_fast (some rtt) since = ltb since (rtt * 2)

-- The controller and the counter after auto-tuning, and the credit to grant.
unfoldable pub tune :
    Config → Option ℕ → ℕ → ℕ → FlowController → ℕ → ℕ → Option (ℕ × ℕ × FlowController)
unfolding new_max is_fast
tune c rtt now acc fc buffer_len credit =
    if is_fast rtt (elapsed fc.last_window_update now)
    then (do
      max' ← new_max c acc fc
      grown ← checked_sub max' fc.max_receive_window
      acc' ← checked_add_usize acc grown
      received ← checked_sub max' fc.receive_window
      some (received - to_u32_or_max buffer_len, acc', record fc { max_receive_window = max' }))
    else some (credit, acc, fc)

-- The lines after auto-tuning, which record the grant.
unfoldable pub settle :
    Config → Option ℕ → ℕ → ℕ → ℕ × ℕ × FlowController → Option (Option ℕ × ℕ × FlowController)
settle c rtt later buffer_len (credit, acc, fc) = do
  window ← checked_add_u32 fc.receive_window credit
  let fc' = record fc { last_window_update = later; receive_window = window }
  assert_invariants c rtt acc fc' buffer_len
  some (some credit, acc, fc')

-- The grant, if any, the counter and the controller. `now` and `later` are two readings of the
-- clock.
unfoldable pub next_window_update :
    Config → Option ℕ → ℕ → ℕ → ℕ → FlowController → ℕ → Option (Option ℕ × ℕ × FlowController)
next_window_update c rtt now later acc fc buffer_len = do
  assert_invariants c rtt acc fc buffer_len
  received ← checked_sub fc.max_receive_window fc.receive_window
  let credit = received - to_u32_or_max buffer_len
  if ltb credit (fc.max_receive_window / 2)
      then some (none, acc, fc)
      else tune c rtt now acc fc buffer_len credit >>= settle c rtt later buffer_len

unfoldable pub consume_send_window : FlowController → ℕ → Result ConnectionError FlowController
consume_send_window fc i = elim (checked_sub fc.send_window i) [
  | none ↦ err invalid_window_update
  | some n ↦ ok (record fc { send_window = n })
]

unfoldable pub increase_send_window_by : FlowController → ℕ → Result ConnectionError FlowController
increase_send_window_by fc i = elim (checked_add_u32 fc.send_window i) [
  | none ↦ err invalid_window_update
  | some n ↦ ok (record fc { send_window = n })
]

unfoldable pub consume_receive_window : FlowController → ℕ → Result ConnectionError FlowController
consume_receive_window fc i = elim (checked_sub fc.receive_window i) [
  | none ↦ err invalid_window_update
  | some n ↦ ok (record fc { receive_window = n })
]

-- `Drop`: the counter gives back what this stream had beyond the default.
unfoldable pub drop : ℕ → FlowController → Option ℕ
drop acc fc = do
  extra ← checked_sub fc.max_receive_window default_credit
  assert (leb extra acc)
  checked_sub acc extra
