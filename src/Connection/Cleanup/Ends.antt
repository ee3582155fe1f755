-- ===== src/Connection/Cleanup/Ends.antt =====
-- connection/cleanup.rs: a cleanup ends, with the error it was made for.
use rust_yamux.Common.{
  ℕ, zero, suc, ◌+◌, ◌≡◌, ◌≤◌, ◌<◌, refl, sym, subst, arith, Option, none, some, Poll, ready,
}
use rust_yamux.Error.{ConnectionError}
use rust_yamux.Frame.Io.{go_on}
use rust_yamux.Connection.Wires.{Next, blocked, ended, item, Receivers}
use rust_yamux.Connection.Cleanup.{
  State, closing_stream_receiver, draining_stream_receiver, Cleanup, new, drain, finish, turn, poll,
}

-- There is an end to the items of the receivers: `left` bounds those to come.
abbrev pub Shrinks : {R : Type 0} → (R → ℕ) → R → Next × R → Type 0
Shrinks left r (item _ _, r') = left r' < left r
Shrinks left r (blocked, r') = Unit {0}
Shrinks left r (ended, r') = Unit {0}

pub record Finite {R : Type 0} (recv : Receivers R) (left : R → ℕ) : Type 0 where
  pub close_left : (r : R) → left (recv.close_all r) ≤ left r
  pub shrinks : (r : R) → Shrinks left r (recv.poll_next r)

module _ {R : Type 0} (recv : Receivers R) (left : R → ℕ) (finite : Finite recv left)
    (e : ConnectionError) where
  abbrev turns : State → R → ℕ
  turns closing_stream_receiver r = left r + 2
  turns draining_stream_receiver r = left r + 1

  Ends : Poll ConnectionError × Cleanup R → Type 0
  Ends (r, c) = (r ≡ ready e) × (c.error ≡ none)

  abbrev Turn : ℕ → Option (Poll ConnectionError) × Cleanup R → Type 0
  Turn n (none, c) = (turns c.state c.stream_receivers < n) × (c.error ≡ some e)
  Turn n (some r, c) = (r ≡ ready e) × (c.error ≡ none)

  drain_Turn :
      (c : Cleanup R) (x : Next × R)
      → c.state ≡ draining_stream_receiver
      → c.error ≡ some e
      → Shrinks left c.stream_receivers x
      → Turn (left c.stream_receivers + 1) (drain c x)
  unfolding drain finish
  drain_Turn c (item id cmd, r) s k l =
      (subst (λ x. turns x r < left c.stream_receivers + 1) (sym s) (omega (arith, l)), k)
  drain_Turn c (blocked, r) s k l = ground arith
  drain_Turn c (ended, r) s k l = ground arith

  turn_Turn :
      (s : State) (c : Cleanup R)
      → c.state ≡ s
      → c.error ≡ some e
      → Turn (turns s c.stream_receivers) (turn recv s c)
  unfolding turn
  turn_Turn closing_stream_receiver c s k = (omega (arith, finite.close_left c.stream_receivers), k)
  turn_Turn draining_stream_receiver c s k =
      drain_Turn c (recv.poll_next c.stream_receivers) s k (finite.shrinks c.stream_receivers)

  run :
      (n m : ℕ) (x : Option (Poll ConnectionError) × Cleanup R)
      → Turn m x
      → m ≤ n
      → ((c : Cleanup R)
          → turns c.state c.stream_receivers < n
          → c.error ≡ some e
          → Ends (poll recv n c))
      → Ends (go_on (poll recv n) x)
  unfolding Ends
  run n m (some r, c) h l k = h
  run n m (none, c) h l k = k c (omega (arith, h.0)) h.1

  poll_Ends :
      (fuel : ℕ) (c : Cleanup R)
      → turns c.state c.stream_receivers < fuel
      → c.error ≡ some e
      → Ends (poll recv fuel c)
  unfolding poll
  poll_Ends zero c l k = absurd (omega (arith, l))
  poll_Ends (suc n) c l k =
      run n (turns c.state c.stream_receivers) (turn recv c.state c) (turn_Turn c.state c refl k)
        (omega arith) (poll_Ends n)

  -- A new cleanup, over receivers with an end to their items, answers its error and never pends, with
  -- fuel for more turns than the items to come and 2, and has given the error away.
  pub cleans_up :
      (fuel : ℕ) (receivers : R)
      → left receivers + 2 < fuel
      → ((poll recv fuel (new receivers e)).0 ≡ ready e)
        × ((poll recv fuel (new receivers e)).1.error ≡ none)
  unfolding new Ends
  cleans_up fuel receivers l = poll_Ends fuel (new receivers e) l refl
