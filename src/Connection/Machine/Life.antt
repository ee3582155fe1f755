-- ===== src/Connection/Machine/Life.antt =====
-- connection.rs: a connection that fails is cleaned up and closed in the same call, and a closed one
-- stays closed.
use rust_yamux.Common.{
  [], ◌∷◌, ℕ, suc, ◌+◌, ◌≡◌, ◌<◌, refl, ap, ◌∙◌, arith, none, some, ok, err, Poll, ready, pending,
  panicked, stuck,
}
use rust_yamux.Error.{ConnectionError, closed}
use rust_yamux.Connection.Wires.{Receivers, Wire}
use rust_yamux.Connection.StreamMap.{StreamMap}
use rust_yamux.Connection.Active.{Active, drop_all, close_at, drop_all_streams}
use rust_yamux.Connection.Cleanup
use rust_yamux.Connection.Cleanup.Ends.{Finite, cleans_up}
use rust_yamux.Connection.Opening
use rust_yamux.Connection.Poll.{Tick}
use rust_yamux.Connection.Poll
use rust_yamux.Connection.Departure.{Released, drops_all}
use rust_yamux.Connection.Machine.{
  Store, Answer, active, ended, clean, after_active, after_cleanup, outbound_turn, inbound_turn,
  close_turn, new_outbound, next_inbound, poll_close, cleaned_inbound, loop,
}

-- The answer with its error changed.
renamed : {A : Type 0} → (ConnectionError → A) → Poll ConnectionError → Poll A
renamed f (ready e) = ready (f e)
renamed f pending = pending
renamed f panicked = panicked
renamed f stuck = stuck

module _ {R T : Type 0} (push : ℕ → ℕ → R → R) (recv : Receivers R) (wire : Wire T)
    (ticks : ℕ → Tick) (fuel n : ℕ) where
  -- A closed connection answers that it is closed, whatever function is called, and stays closed.
  pub stays_ended :
      (st : Store)
      → (new_outbound push recv wire ticks fuel (suc n) (ended st) ≡ (ready (err closed), ended st))
        × (next_inbound push recv wire ticks fuel (suc n) (ended st) ≡ (ready none, ended st))
        × (poll_close push recv wire ticks fuel (suc n) (ended st) ≡ (ready (ok tt), ended st))
  unfolding new_outbound next_inbound poll_close outbound_turn inbound_turn close_turn
  stays_ended st = (refl, refl, refl)

  cleaned :
      {A : Type 0} (f : ConnectionError → A) (st : Store) (e : ConnectionError)
      (x : Poll ConnectionError × Cleanup.Cleanup R)
      → x.0 ≡ ready e
      → ◌≡◌ {A = Answer R T A} (after_cleanup f st x) (some (ready (f e)), ended st)
  unfolding after_cleanup renamed
  cleaned f st e (ready d, c) p = ap (λ y. (some (renamed f y), ended st)) p
  cleaned f st e (pending, c) p = absurd (ground arith)
  cleaned f st e (panicked, c) p = absurd (ground arith)
  cleaned f st e (stuck, c) p = absurd (ground arith)

  drop_all-receivers : (m : StreamMap) (c : Active R T) → (drop_all m c).receivers ≡ c.receivers
  unfolding drop_all close_at
  drop_all-receivers [] c = refl
  drop_all-receivers ((k, a) ∷ m) c = drop_all-receivers m (close_at a c)

  module _ (left : R → ℕ) (finite : Finite recv left) (c d : Active R T) (e : ConnectionError)
      (enough : left d.receivers + 2 < fuel) where
    clean_answer : (Cleanup.poll recv fuel (clean e d).1).0 ≡ ready e
    unfolding clean drop_all_streams
    clean_answer =
        (cleans_up recv left finite e fuel (drop_all d.streams d).receivers
          (omega (arith, enough, ap left (drop_all-receivers d.streams d)))).0

    clean-Released : Released d.streams d.heap (clean e d).0.heap (clean e d).0.woken
    unfolding clean
    clean-Released = (drops_all d).1

    -- Where opening an outbound stream fails, with the connection left as `d`, the call answers the
    -- error and the connection is closed when it returns, with every stream of the map closed, its
    -- bytes kept and the tasks that waited for it woken. The receivers have an end and the fuel
    -- exceeds the items to come by more than 2.
    pub failed_outbound :
        Opening.poll_new_outbound push (ticks 0).waker (ticks 0).now c ≡ (ready (err e), d)
        → (st : Store) × (new_outbound push recv wire ticks fuel (suc (suc n)) (active c)
            ≡ (ready (err e), ended st))
          × Released d.streams d.heap st.heap st.woken
    unfolding new_outbound outbound_turn after_active
    failed_outbound p = (
      (clean e d).0,
      ap (λ x. loop (new_outbound push recv wire ticks fuel (suc n)) (after_active (λ r. r) x)) p
          ∙ ap (loop (new_outbound push recv wire ticks fuel n))
              (cleaned err (clean e d).0 e (Cleanup.poll recv fuel (clean e d).1) clean_answer),
      clean-Released,
    )

    -- Where the loop of a healthy connection ends in an error, with the connection left as `d`, the
    -- call answers the error, or the end of the inbound streams if the error is that the connection
    -- was closed, and the connection is closed when it returns, with every stream of the map closed,
    -- its bytes kept and the tasks that waited for it woken. The receivers have an end and the fuel
    -- exceeds the items to come by more than 2.
    pub failed_inbound :
        Poll.poll push recv wire ticks fuel c ≡ (ready (err e), d)
        → (st : Store) × (next_inbound push recv wire ticks fuel (suc (suc n)) (active c)
            ≡ (ready (cleaned_inbound e), ended st))
          × Released d.streams d.heap st.heap st.woken
    unfolding next_inbound inbound_turn after_active
    failed_inbound p = (
      (clean e d).0,
      ap (λ x. loop (next_inbound push recv wire ticks fuel (suc n)) (after_active some x)) p
          ∙ ap (loop (next_inbound push recv wire ticks fuel n)) (
              cleaned cleaned_inbound (clean e d).0 e (Cleanup.poll recv fuel (clean e d).1)
                clean_answer),
      clean-Released,
    )
