-- ===== src/Connection/Machine/Settles/Loops.antt =====
-- connection.rs: `poll_new_outbound`, `poll_next_inbound` and `poll_close` each settle in three turns.
use rust_yamux.Common.{ℕ, ◌≢◌, refl, some, Result, ok, err}
use rust_yamux.Error.{ConnectionError}
use rust_yamux.Connection.Wires.{Receivers, Wire}
use rust_yamux.Connection.Poll.{Tick}
use rust_yamux.Connection.Machine.{
  Store, ConnectionState, active, closing, cleanup, ended, poisoned, states, outbound_turn,
  inbound_turn, close_turn, new_outbound, next_inbound, poll_close, closed_outbound, closed_inbound,
  closed_close, cleaned_inbound,
}
use rust_yamux.Connection.Machine.Settles.{
  Settled, Turned, looped, healthy, closed_settles, cleaned_settles, Never, Down, IsEnded, at_once,
  outbound_closed, inbound_closed, active_settles,
}

module _ {R T : Type 0} (push : ℕ → ℕ → R → R) (recv : Receivers R) (wire : Wire T)
    (ticks : ℕ → Tick) (fuel : ℕ) where
  outbound_later :
      (s : ConnectionState R T) → Down s → Turned Never (outbound_turn push recv wire ticks fuel s)
  unfolding Down outbound_turn closed_outbound
  outbound_later (active c) d = absurd d
  outbound_later (closing st c) d =
      closed_settles Never closed_outbound st (outbound_closed Never st) _
  outbound_later (cleanup st c) d = cleaned_settles Never err st _
  outbound_later (ended st) d = healthy _ _ (λ p. cc) (λ p. cc) (λ p. cc)
  outbound_later poisoned d = absurd d

  outbound_first :
      (s : ConnectionState R T)
      → s ≢ poisoned
      → Turned Down (outbound_turn push recv wire ticks fuel s)
  unfolding outbound_turn closed_outbound
  outbound_first (active c) d = active_settles (λ r. r) _
  outbound_first (closing st c) d =
      closed_settles Down closed_outbound st (outbound_closed Down st) _
  outbound_first (cleanup st c) d = cleaned_settles Down err st _
  outbound_first (ended st) d = healthy _ _ (λ p. cc) (λ p. cc) (λ p. cc)
  outbound_first poisoned d = absurd (d refl)

  outbound_settles :
      (s : ConnectionState R T)
      → s ≢ poisoned
      → Settled (new_outbound push recv wire ticks fuel states s)
  unfolding new_outbound
  outbound_settles s d =
      looped _ Down (λ x q. at_once _ _ (outbound_later x q)) _ (outbound_first s d)

  close_last :
      (s : ConnectionState R T) → IsEnded s → Turned Never (close_turn push recv wire ticks fuel s)
  unfolding IsEnded close_turn
  close_last (active c) d = absurd d
  close_last (closing st c) d = absurd d
  close_last (cleanup st c) d = absurd d
  close_last (ended st) d = healthy _ _ (λ p. cc) (λ p. cc) (λ p. cc)
  close_last poisoned d = absurd d

  close_closed :
      (Next : ConnectionState R T → Type 0) (st : Store)
      → Next (ended st)
      → (r : Result ConnectionError (Unit {0})) → Turned Next (closed_close r, ended st)
  unfolding closed_close
  close_closed Next st h (ok u) = h
  close_closed Next st h (err e) = healthy _ _ (λ p. cc) (λ p. cc) (λ p. cc)

  close_later :
      (s : ConnectionState R T) → Down s → Turned IsEnded (close_turn push recv wire ticks fuel s)
  unfolding Down close_turn IsEnded
  close_later (active c) d = absurd d
  close_later (closing st c) d =
      closed_settles IsEnded closed_close st (close_closed IsEnded st tt) _
  close_later (cleanup st c) d = cleaned_settles IsEnded (λ _. ok tt) st _
  close_later (ended st) d = healthy _ _ (λ p. cc) (λ p. cc) (λ p. cc)
  close_later poisoned d = absurd d

  close_first :
      (s : ConnectionState R T)
      → s ≢ poisoned
      → Turned Down (close_turn push recv wire ticks fuel s)
  unfolding close_turn Down
  close_first (active c) d = tt
  close_first (closing st c) d = closed_settles Down closed_close st (close_closed Down st tt) _
  close_first (cleanup st c) d = cleaned_settles Down (λ _. ok tt) st _
  close_first (ended st) d = healthy _ _ (λ p. cc) (λ p. cc) (λ p. cc)
  close_first poisoned d = absurd (d refl)

  close_settles :
      (s : ConnectionState R T)
      → s ≢ poisoned
      → Settled (poll_close push recv wire ticks fuel states s)
  unfolding poll_close
  close_settles s d =
      looped _ Down
        (λ x q. looped _ IsEnded (λ y r. at_once _ _ (close_last y r)) _ (close_later x q)) _
        (close_first s d)

  inbound_later :
      (s : ConnectionState R T) → Down s → Turned Never (inbound_turn push recv wire ticks fuel s)
  unfolding Down inbound_turn closed_inbound
  inbound_later (active c) d = absurd d
  inbound_later (closing st c) d =
      closed_settles Never closed_inbound st (inbound_closed Never st) _
  inbound_later (cleanup st c) d = cleaned_settles Never cleaned_inbound st _
  inbound_later (ended st) d = healthy _ _ (λ p. cc) (λ p. cc) (λ p. cc)
  inbound_later poisoned d = absurd d

  inbound_first :
      (s : ConnectionState R T)
      → s ≢ poisoned
      → Turned Down (inbound_turn push recv wire ticks fuel s)
  unfolding inbound_turn closed_inbound
  inbound_first (active c) d = active_settles some _
  inbound_first (closing st c) d = closed_settles Down closed_inbound st (inbound_closed Down st) _
  inbound_first (cleanup st c) d = cleaned_settles Down cleaned_inbound st _
  inbound_first (ended st) d = healthy _ _ (λ p. cc) (λ p. cc) (λ p. cc)
  inbound_first poisoned d = absurd (d refl)

  inbound_settles :
      (s : ConnectionState R T)
      → s ≢ poisoned
      → Settled (next_inbound push recv wire ticks fuel states s)
  unfolding next_inbound
  inbound_settles s d = looped _ Down (λ x q. at_once _ _ (inbound_later x q)) _ (inbound_first s d)

  -- Three turns are enough for the loop of each of the three functions, of a connection that is not
  -- poisoned: it is left poisoned exactly if the function panics or the loop of the active, the
  -- closing or the failed connection beneath it has used up its fuel. So a later call never meets the
  -- poisoned state without a panic before it.
  pub settles :
      (s : ConnectionState R T)
      → s ≢ poisoned
      → Settled (new_outbound push recv wire ticks fuel states s)
        × Settled (next_inbound push recv wire ticks fuel states s)
        × Settled (poll_close push recv wire ticks fuel states s)
  settles s d = (outbound_settles s d, inbound_settles s d, close_settles s d)
