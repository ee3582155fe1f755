-- ===== src/Harness.antt =====
-- test-harness/src/lib.rs: three tasks that drive a connection as its users do. Each `poll` is a loop
-- over one turn, on fuel; a turn answers `none` where the loop goes on. The asynchronous blocks that
-- work on the streams, and the set that runs them (`FuturesUnordered`), are no code of this
-- model: a set of workers is a state `W` with the operations of `Workers`, and a job says what a block
-- is given.
pub mod Laws
pub mod Opener
pub mod Echo
pub mod Sender
use rust_yamux.Common.{ℕ, zero, suc, Bool, Option, none, some, Result, Poll, stuck}
use rust_yamux.Error.{ConnectionError}
use rust_yamux.Connection.Wires.{Receivers, Wire}
use rust_yamux.Connection.Active.{Handle}
use rust_yamux.Connection.Poll.{Tick}
use rust_yamux.Connection.Machine
use rust_yamux.Connection.Machine.{ConnectionState}

-- The functions of `Connection` that the tasks call.
pub record Peer (S : Type 0) : Type 0 where
  pub poll_new_outbound : S → Poll (Result ConnectionError Handle) × S
  pub poll_next_inbound : S → Poll (Option (Result ConnectionError Handle)) × S
  pub poll_close : S → Poll (Result ConnectionError (Unit {0})) × S

-- `Connection` itself.
abbrev pub connection_peer :
    {R T : Type 0}
    → (ℕ → ℕ → R → R)
    → Receivers R
    → Wire T
    → (ℕ → Tick)
    → ℕ
    → Peer (ConnectionState R T)
connection_peer push recv wire ticks fuel = record {
  poll_new_outbound = Machine.new_outbound push recv wire ticks fuel Machine.states;
  poll_next_inbound = Machine.next_inbound push recv wire ticks fuel Machine.states;
  poll_close = Machine.poll_close push recv wire ticks fuel Machine.states;
}

-- `FuturesUnordered`, whose futures are made of jobs `J` and end with an `A`.
pub record Workers (W J A : Type 0) : Type 0 where
  pub push : J → W → W
  pub poll_next : W → Poll (Option A) × W
  pub is_empty : W → Bool

-- The loop of a `poll` over its turn.
unfoldable pub run : {A X : Type 0} → (X → Option (Poll A) × X) → ℕ → X → Poll A × X
run turn zero x = (stuck, x)
run turn (suc n) x =
    let (r, x') = turn x in let rest = run turn n x' in elim r [ none ↦ rest | some a ↦ (a, x') ]
