-- ===== src/Connection/Machine.antt =====
-- connection.rs: `Connection`, a state machine over a healthy, a closing, a failed and a closed
-- connection. Each function is a loop that takes the state out, leaving `poisoned`, and puts the next
-- one back. An `Active` loop gets fuel, `Closing` and `Cleanup` likewise.
pub mod Life
pub mod Settles
use rust_yamux.Common.{
  ℕ, zero, suc, Option, none, some, List, [], ◌∷◌, ◌++◌, Result, ok, err, Poll, ready, pending,
  panicked, stuck,
}
use rust_yamux.Error.{ConnectionError, io, closed}
use rust_yamux.Frame.{Frame}
use rust_yamux.Frame.Io.{WriteResult}
use rust_yamux.Connection.Wires.{Receivers, Wire}
use rust_yamux.Config.{Config}
use rust_yamux.Stream.Shared.{Shared}
use rust_yamux.Connection.Active
use rust_yamux.Connection.Active.{Mode, Handle, Active, drop_all_streams}
use rust_yamux.Connection.Opening
use rust_yamux.Connection.Closing
use rust_yamux.Connection.Cleanup
use rust_yamux.Connection.Poll.{Tick, PollResult}
use rust_yamux.Connection.Poll

-- The shared states of the streams, which the handles keep when the connection has let go of them,
-- and the log of the wake-ups. The variants of `ConnectionState` after `Active` refer to none of them.
pub record Store : Type 0 where
  pub heap : ℕ → Shared
  pub woken : List ℕ

pub data ConnectionState (R T : Type 0) : Type 0 where
  active : Active R T → ConnectionState R T
  closing : Store → Closing.Closing R T → ConnectionState R T
  cleanup : Store → Cleanup.Cleanup R → ConnectionState R T
  ended : Store → ConnectionState R T
  poisoned : ConnectionState R T

abbrev frame_list : Option Frame → List Frame
frame_list none = []
frame_list (some f) = f ∷ []

-- What a turn of a loop answers: the loop goes on with `none`.
abbrev pub Answer : Type 0 → Type 0 → Type 0 → Type 0
Answer R T A = Option (Poll A) × ConnectionState R T

module _ {R T : Type 0} where
  -- `Connection::new`, with a reading of the clock.
  unfoldable pub new : R → T → Config → Mode → ℕ → (ℕ → Shared) → ConnectionState R T
  unfolding Active.new
  new receivers socket config mode now heap =
      active (Active.new receivers socket config mode now heap)

  -- `Active::close` and `Active::cleanup`.
  unfoldable pub close : Active R T → Closing.Closing R T
  unfolding Closing.new
  close c =
      Closing.new c.receivers (frame_list c.pending_read_frame ++ frame_list c.pending_write_frame)
        c.socket

  abbrev pub store_of : Active R T → Store
  store_of c = record { heap = c.heap; woken = c.woken }

  unfoldable pub clean : ConnectionError → Active R T → Store × Cleanup.Cleanup R
  unfolding Cleanup.new
  clean e c = let d = drop_all_streams c in (store_of d, Cleanup.new d.receivers e)

  -- `impl Drop for Connection`.
  unfoldable pub drop : ConnectionState R T → ConnectionState R T
  drop (active c) = active (drop_all_streams c)
  drop s = s

  -- The branch of an active connection in `poll_new_outbound` and `poll_next_inbound`.
  unfoldable pub after_active :
      {A : Type 0} → (Result ConnectionError Handle → A) → PollResult × Active R T → Answer R T A
  unfolding clean
  after_active f (ready (ok h), c) = (some (ready (f (ok h))), active c)
  after_active f (ready (err e), c) = (none, cleanup (clean e c).0 (clean e c).1)
  after_active f (pending, c) = (some pending, active c)
  after_active f (panicked, c) = (some panicked, poisoned)
  after_active f (stuck, c) = (some stuck, poisoned)

  unfoldable pub after_closing :
      {A : Type 0}
      → (Result ConnectionError (Unit {0}) → Option (Poll A))
      → Store
      → WriteResult × Closing.Closing R T
      → Answer R T A
  after_closing f st (ready (ok u), c) = (f (ok u), ended st)
  after_closing f st (ready (err e), c) = (f (err (io e)), ended st)
  after_closing f st (pending, c) = (some pending, closing st c)
  after_closing f st (panicked, c) = (some panicked, poisoned)
  after_closing f st (stuck, c) = (some stuck, poisoned)

  unfoldable pub after_cleanup :
      {A : Type 0}
      → (ConnectionError → A)
      → Store
      → Poll ConnectionError × Cleanup.Cleanup R
      → Answer R T A
  after_cleanup f st (ready e, c) = (some (ready (f e)), ended st)
  after_cleanup f st (pending, c) = (some pending, cleanup st c)
  after_cleanup f st (panicked, c) = (some panicked, poisoned)
  after_cleanup f st (stuck, c) = (some stuck, poisoned)

  abbrev pub loop :
      {A : Type 0}
      → (ConnectionState R T → Poll A × ConnectionState R T)
      → Answer R T A
      → Poll A × ConnectionState R T
  loop k (some r, s) = (r, s)
  loop k (none, s) = k s

-- Results of `poll_next_inbound`: `None` where the connection is closed.
abbrev Inbound : Type 0
Inbound = Option (Result ConnectionError Handle)

pub closed_inbound : Result ConnectionError (Unit {0}) → Option (Poll Inbound)
closed_inbound (ok _) = some (ready none)
closed_inbound (err e) = some (ready (some (err e)))

pub closed_outbound :
    Result ConnectionError (Unit {0}) → Option (Poll (Result ConnectionError Handle))
closed_outbound (ok _) = some (ready (err closed))
closed_outbound (err e) = some (ready (err e))

-- The loop goes on to the closed state, which answers `Ok(())`.
closed_close : Result ConnectionError (Unit {0}) → Option (Poll (Result ConnectionError (Unit {0})))
closed_close (ok _) = none
closed_close (err e) = some (ready (err e))

unfoldable pub cleaned_inbound : ConnectionError → Inbound
cleaned_inbound closed = none
cleaned_inbound e = some (err e)

-- The loops of the three functions go through at most this many states.
abbrev pub states : ℕ
states = 3

module _ {R T : Type 0} (push : ℕ → ℕ → R → R) (recv : Receivers R) (wire : Wire T)
    (ticks : ℕ → Tick) (fuel : ℕ) where
  unfoldable pub outbound_turn : ConnectionState R T → Answer R T (Result ConnectionError Handle)
  unfolding after_active after_closing after_cleanup closed_outbound
  outbound_turn (active c) =
      after_active (λ r. r) (Opening.poll_new_outbound push (ticks 0).waker (ticks 0).now c)
  outbound_turn (closing st c) = after_closing closed_outbound st (Closing.poll recv wire fuel c)
  outbound_turn (cleanup st c) = after_cleanup err st (Cleanup.poll recv fuel c)
  outbound_turn (ended st) = (some (ready (err closed)), ended st)
  outbound_turn poisoned = (some panicked, poisoned)

  unfoldable pub inbound_turn : ConnectionState R T → Answer R T Inbound
  unfolding after_active after_closing after_cleanup closed_inbound cleaned_inbound
  inbound_turn (active c) = after_active some (Poll.poll push recv wire ticks fuel c)
  inbound_turn (closing st c) = after_closing closed_inbound st (Closing.poll recv wire fuel c)
  inbound_turn (cleanup st c) = after_cleanup cleaned_inbound st (Cleanup.poll recv fuel c)
  inbound_turn (ended st) = (some (ready none), ended st)
  inbound_turn poisoned = (some panicked, poisoned)

  unfoldable pub close_turn : ConnectionState R T → Answer R T (Result ConnectionError (Unit {0}))
  unfolding close after_closing after_cleanup closed_close
  close_turn (active c) = (none, closing (store_of c) (close c))
  close_turn (closing st c) = after_closing closed_close st (Closing.poll recv wire fuel c)
  close_turn (cleanup st c) = after_cleanup (λ _. ok tt) st (Cleanup.poll recv fuel c)
  close_turn (ended st) = (some (ready (ok tt)), ended st)
  close_turn poisoned = (some panicked, poisoned)

  unfoldable pub new_outbound :
      ℕ → ConnectionState R T → Poll (Result ConnectionError Handle) × ConnectionState R T
  unfolding outbound_turn
  new_outbound zero s = (stuck, s)
  new_outbound (suc n) s = loop (new_outbound n) (outbound_turn s)

  unfoldable pub next_inbound : ℕ → ConnectionState R T → Poll Inbound × ConnectionState R T
  unfolding inbound_turn
  next_inbound zero s = (stuck, s)
  next_inbound (suc n) s = loop (next_inbound n) (inbound_turn s)

  unfoldable pub poll_close :
      ℕ → ConnectionState R T → Poll (Result ConnectionError (Unit {0})) × ConnectionState R T
  unfolding close_turn
  poll_close zero s = (stuck, s)
  poll_close (suc n) s = loop (poll_close n) (close_turn s)
