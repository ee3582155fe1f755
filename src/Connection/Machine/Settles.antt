-- ===== src/Connection/Machine/Settles.antt =====
-- connection.rs: what a turn of the loops of `Connection` leaves behind in each state.
pub mod Loops
use rust_yamux.Common.{
  ◌↔◌, ◌⊎◌, inl, inr, ℕ, ◌≡◌, ◌≢◌, refl, Option, none, some, Result, ok, err, Poll, ready, pending,
  panicked, stuck,
}
use rust_yamux.Error.{ConnectionError, io}
use rust_yamux.Frame.Io.{WriteResult}
use rust_yamux.Connection.Wires.{Receivers, Wire}
use rust_yamux.Connection.Active.{Active, Handle}
use rust_yamux.Connection.Closing
use rust_yamux.Connection.Cleanup
use rust_yamux.Connection.Poll.{Tick, PollResult}
use rust_yamux.Connection.Machine.{
  Store, ConnectionState, active, closing, cleanup, ended, poisoned, Answer, states, loop,
  after_active, after_closing, after_cleanup, outbound_turn, inbound_turn, close_turn, new_outbound,
  next_inbound, poll_close, closed_outbound, closed_inbound, closed_close, cleaned_inbound,
}

module _ {R T : Type 0} where
  -- The state is left poisoned exactly if the function panics or a loop beneath it has used up its
  -- fuel.
  abbrev pub Settled : {A : Type 0} → Poll A × ConnectionState R T → Type 0
  Settled (r, s) = (s ≡ poisoned) ↔ ((r ≡ panicked) ⊎ (r ≡ stuck))

  -- A turn that ends the loop has settled, and one that goes on has settled after what it goes on to.
  abbrev pub Turned : {A : Type 0} → (ConnectionState R T → Type 0) → Answer R T A → Type 0
  Turned Next (some r, s) = Settled (r, s)
  Turned Next (none, s) = Next s

  pub looped :
      {A : Type 0} (k : ConnectionState R T → Poll A × ConnectionState R T)
      (Next : ConnectionState R T → Type 0)
      → ((s : ConnectionState R T) → Next s → Settled (k s))
      → (t : Answer R T A) → Turned Next t
      → Settled (loop k t)
  looped k Next h (some r, s) p = p
  looped k Next h (none, s) p = h s p

  abbrev pub Is : ConnectionState R T → ConnectionState R T → Type 0
  Is t s = s ≡ t

  pub healthy :
      {A : Type 0} (r : Poll A) (s : ConnectionState R T)
      → s ≢ poisoned
      → r ≢ panicked
      → r ≢ stuck
      → Settled (r, s)
  healthy r s a b c =
      (λ p. absurd (a p), λ q. elim q [ inl p ↦ absurd (b p) | inr p ↦ absurd (c p) ])

  pub failed : {A : Type 0} (r : Poll A) → (r ≡ panicked) ⊎ (r ≡ stuck) → Settled (r, poisoned)
  failed r q = (λ p. q, λ _. refl)

  pub closed_settles :
      {A : Type 0} (Next : ConnectionState R T → Type 0)
      (f : Result ConnectionError (Unit {0}) → Option (Poll A)) (st : Store)
      → ((r : Result ConnectionError (Unit {0})) → Turned Next (f r, ended st))
      → (x : WriteResult × Closing.Closing R T) → Turned Next (after_closing f st x)
  unfolding after_closing
  closed_settles Next f st h (ready (ok u), c) = h (ok u)
  closed_settles Next f st h (ready (err e), c) = h (err (io e))
  closed_settles Next f st h (pending, c) = healthy _ _ (λ p. cc) (λ p. cc) (λ p. cc)
  closed_settles Next f st h (panicked, c) = failed _ (inl refl)
  closed_settles Next f st h (stuck, c) = failed _ (inr refl)

  pub cleaned_settles :
      {A : Type 0} (Next : ConnectionState R T → Type 0) (f : ConnectionError → A) (st : Store)
      (x : Poll ConnectionError × Cleanup.Cleanup R)
      → Turned Next (after_cleanup f st x)
  unfolding after_cleanup
  cleaned_settles Next f st (ready e, c) = healthy _ _ (λ p. cc) (λ p. cc) (λ p. cc)
  cleaned_settles Next f st (pending, c) = healthy _ _ (λ p. cc) (λ p. cc) (λ p. cc)
  cleaned_settles Next f st (panicked, c) = failed _ (inl refl)
  cleaned_settles Next f st (stuck, c) = failed _ (inr refl)

  pub Never : ConnectionState R T → Type 0
  Never s = ⊥

  -- Not active any more.
  pub Down : ConnectionState R T → Type 0
  Down (active c) = ⊥
  Down poisoned = ⊥
  Down _ = Unit {0}

  pub IsEnded : ConnectionState R T → Type 0
  IsEnded (ended st) = Unit {0}
  IsEnded _ = ⊥

  pub at_once :
      {A : Type 0} (k : ConnectionState R T → Poll A × ConnectionState R T) (t : Answer R T A)
      → Turned Never t
      → Settled (loop k t)
  unfolding Never
  at_once k (some r, s) p = p
  at_once k (none, s) p = absurd p

  pub outbound_closed :
      (Next : ConnectionState R T → Type 0) (st : Store) (r : Result ConnectionError (Unit {0}))
      → Turned Next (closed_outbound r, ended st)
  unfolding closed_outbound
  outbound_closed Next st (ok u) = healthy _ _ (λ p. cc) (λ p. cc) (λ p. cc)
  outbound_closed Next st (err e) = healthy _ _ (λ p. cc) (λ p. cc) (λ p. cc)

  pub inbound_closed :
      (Next : ConnectionState R T → Type 0) (st : Store) (r : Result ConnectionError (Unit {0}))
      → Turned Next (closed_inbound r, ended st)
  unfolding closed_inbound
  inbound_closed Next st (ok u) = healthy _ _ (λ p. cc) (λ p. cc) (λ p. cc)
  inbound_closed Next st (err e) = healthy _ _ (λ p. cc) (λ p. cc) (λ p. cc)

  pub active_settles :
      {A : Type 0} (f : Result ConnectionError Handle → A) (x : PollResult × Active R T)
      → Turned Down (after_active f x)
  unfolding after_active Down
  active_settles f (ready (ok h), c) = healthy _ _ (λ p. cc) (λ p. cc) (λ p. cc)
  active_settles f (ready (err e), c) = tt
  active_settles f (pending, c) = healthy _ _ (λ p. cc) (λ p. cc) (λ p. cc)
  active_settles f (panicked, c) = failed _ (inl refl)
  active_settles f (stuck, c) = failed _ (inr refl)
