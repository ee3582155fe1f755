-- ===== src/Harness/Opener.antt =====
-- `OpenStreamsClient`: a task that opens a number of streams.
pub mod Opens
use rust_yamux.Common.{
  ℕ, Option, none, some, List, [], ◌∷◌, ◌++◌, ltb, ◌==◌, if◌then◌else◌, length, Result, ok, err,
  Poll, ready, pending, panicked, stuck,
}
use rust_yamux.Error.{ConnectionError}
use rust_yamux.Connection.Active.{Handle}
use rust_yamux.Harness.{Peer, run}

pub record OpenStreamsClient (S : Type 0) : Type 0 where
  pub connection : Option S
  pub streams : List Handle
  pub to_open : ℕ

abbrev pub Output : Type 0 → Type 0
Output S = Poll (Result ConnectionError (S × List Handle))

abbrev pub Turn : Type 0 → Type 0
Turn S = Option (Output S) × OpenStreamsClient S

module _ {S : Type 0} where
  unfoldable pub new : S → ℕ → OpenStreamsClient S
  new connection to_open = record { connection = some connection; streams = []; to_open = to_open }

  -- `if this.streams.len() == this.to_open` and what follows.
  unfoldable pub finish : S → OpenStreamsClient S → Turn S
  finish s c =
      if length c.streams == c.to_open
      then (some (ready (ok (s, c.streams))), record c { connection = none; streams = [] })
      else (some pending, record c { connection = some s })

  unfoldable pub opened : Poll (Result ConnectionError Handle) × S → OpenStreamsClient S → Turn S
  unfolding finish
  opened (ready (ok h), s) c =
      (none, record c { connection = some s; streams = c.streams ++ (h ∷ []) })
  opened (ready (err e), s) c = (some (ready (err e)), record c { connection = some s })
  opened (pending, s) c = finish s c
  opened (panicked, s) c = (some panicked, record c { connection = some s })
  opened (stuck, s) c = (some stuck, record c { connection = some s })

  unfoldable pub driven :
      Peer S → Poll (Option (Result ConnectionError Handle)) × S → OpenStreamsClient S → Turn S
  unfolding finish opened
  driven peer (ready (some (err e)), s) c = (some (ready (err e)), record c { connection = some s })
  driven peer (ready (some (ok h)), s) c = (some panicked, record c { connection = some s })
  driven peer (ready none, s) c = (some panicked, record c { connection = some s })
  driven peer (pending, s) c =
      if ltb (length c.streams) c.to_open then opened (peer.poll_new_outbound s) c else finish s c
  driven peer (panicked, s) c = (some panicked, record c { connection = some s })
  driven peer (stuck, s) c = (some stuck, record c { connection = some s })

  -- One turn; the connection is `unwrap`ped.
  unfoldable pub turn : Peer S → OpenStreamsClient S → Turn S
  unfolding driven
  turn peer c = elim c.connection [
    | none ↦ (some panicked, c)
    | some s ↦ driven peer (peer.poll_next_inbound s) c
  ]

  unfoldable pub poll : Peer S → ℕ → OpenStreamsClient S → Output S × OpenStreamsClient S
  poll peer fuel c = run (turn peer) fuel c
