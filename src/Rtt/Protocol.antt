-- ===== src/Rtt/Protocol.antt =====
-- One ping is under way at a time, and only its own pong ends the measurement.
use rust_yamux.Common.{
  refl, ℕ, Option, List, ◌≡◌, inl, ◌⊎◌, some, ◌∷◌, arith, ◌+◌, inr, none, ◌%◌, ◌-◌, ◌^◌, ◌<◌, ◌≤◌,
  ◌≢◌, [],
}
use rust_yamux.Frame
use rust_yamux.Frame.{Frame, protocol_error}
use rust_yamux.Action.{Action, no_action, terminate}
use rust_yamux.Rtt.{
  Rtt, RttState, awaiting_pong, waiting, ping_interval, new, next_ping, handle_pong,
}

state_cases :
    (s : RttState) → ((a : ℕ) × (i : ℕ) × (s ≡ awaiting_pong a i)) ⊎ ((n : ℕ) × (s ≡ waiting n))
state_cases (awaiting_pong a i) = inl (a, i, refl)
state_cases (waiting n) = inr (n, refl)

abbrev pinged : ℕ → Rtt → Rtt
pinged sent r = record r {
  state = awaiting_pong sent r.next_id;
  next_id = (r.next_id + 1) % 2 ^ 32;
}

next_ping-some :
    (r s : Rtt) (now sent : ℕ) (f : Frame)
    → next_ping now sent r ≡ (some f, s)
    → (f ≡ Frame.ping r.next_id) × (s ≡ pinged sent r)
unfolding next_ping
next_ping-some r s now sent f e = elim (state_cases r.state) [
  | inl (a, i, p) ↦ ground (arith, p)
  | inr (n, p) ↦ ground (arith, p)
]

module _ (S : Type 0) (r : Rtt) (sent received reply later again : ℕ) where
  abbrev Answered : Rtt → Type 0
  Answered s =
      let (a, t) = handle_pong {S = S} received reply later s in
      (received ≡ r.next_id)
        × (a ≡ no_action)
        × (t.rtt ≡ some (reply - sent))
        × ((again < later + ping_interval) × (next_ping again again t ≡ (none, t))
            ⊎ (later + ping_interval ≤ again)
              × ((next_ping again again t).0 ≡ some (Frame.ping ((r.next_id + 1) % 2 ^ 32))))
      ⊎ (received ≢ r.next_id) × (a ≡ terminate protocol_error) × (t ≡ s)

  pinged-Answered : Answered (pinged sent r)
  unfolding next_ping handle_pong
  pinged-Answered = ground arith

-- After a ping was sent it is the one with the next identifier, and no second ping is sent. A pong
-- with its identifier sets the round-trip time to the time since it was sent, and no ping is sent
-- before `ping_interval` is over; then the next one has the next identifier modulo 2 ^ 32. Any other
-- pong terminates the connection and changes nothing.
pub ping_pong :
    (S : Type 0) (r s : Rtt) (now sent : ℕ) (f : Frame)
    → next_ping now sent r ≡ (some f, s)
    → (received reply later again : ℕ)
    → let (a, t) = handle_pong {S = S} received reply later s in
      (f ≡ Frame.ping r.next_id)
      × (next_ping again later s ≡ (none, s))
      × ((received ≡ r.next_id)
            × (a ≡ no_action)
            × (t.rtt ≡ some (reply - sent))
            × ((again < later + ping_interval) × (next_ping again again t ≡ (none, t))
                ⊎ (later + ping_interval ≤ again)
                  × ((next_ping again again t).0 ≡ some (Frame.ping ((r.next_id + 1) % 2 ^ 32))))
          ⊎ (received ≢ r.next_id) × (a ≡ terminate protocol_error) × (t ≡ s))
ping_pong S r s now sent f e received reply later again =
    let (q, p) = next_ping-some r s now sent f e in
    (q, rw p (unfold next_ping in refl), rw p (pinged-Answered S r sent received reply later again))

-- The calls of the two operations in any order. The pings sent and the pongs accepted are counted.
pub data Call : Type 0 where
  poll : (now sent : ℕ) → Call
  pong : (received now later : ℕ) → Call

pub record Log : Type 0 where
  pub rtt : Rtt
  pub sent : ℕ
  pub answered : ℕ

after_poll : Log → Option Frame × Rtt → Log
after_poll l (none, r) = record l { rtt = r }
after_poll l (some f, r) = record l { rtt = r; sent = l.sent + 1 }

after_pong : Log → Action ℕ × Rtt → Log
after_pong l (no_action, r) = record l { rtt = r; answered = l.answered + 1 }
after_pong l (_, r) = record l { rtt = r }

pub step : Log → Call → Log
unfolding after_poll after_pong
step l (poll now sent) = after_poll l (next_ping now sent l.rtt)
step l (pong received now later) = after_pong l (handle_pong received now later l.rtt)

pub run : Log → List Call → Log
run l [] = l
run l (c ∷ cs) = run (step l c) cs

pub outstanding : RttState → ℕ
outstanding (awaiting_pong a i) = 1
outstanding (waiting n) = 0

abbrev pub start : ℕ → Log
start now = record { rtt = new now; sent = 0; answered = 0 }

record Counted (l : Log) : Type 0 where
  balance : l.sent ≡ l.answered + outstanding l.rtt.state
  ids : l.rtt.next_id ≡ l.sent % 2 ^ 32
  measured : (l.rtt.rtt ≡ none) ⊎ (1 ≤ l.answered)

step-Counted : (l : Log) (c : Call) → Counted l → Counted (step l c)
unfolding step outstanding next_ping handle_pong
step-Counted l (poll now sent) v = elim (state_cases l.rtt.state) [
  | inl (a, i, p) ↦ ground (arith, p, v.measured)
  | inr (n, p) ↦ ground (arith, p, v.measured)
]
step-Counted l (pong received now later) v = elim (state_cases l.rtt.state) [
  | inl (a, i, p) ↦ ground (arith, p)
  | inr (n, p) ↦ ground (arith, p)
]

run-Counted : (l : Log) (cs : List Call) → Counted l → Counted (run l cs)
unfolding run
run-Counted l [] v = v
run-Counted l (c ∷ cs) v = run-Counted (step l c) cs (step-Counted l c v)

-- Over any sequence of calls on a new `Rtt`, every ping sent but the one under way, if there is
-- one, has been answered, the identifiers count the pings modulo 2 ^ 32, and there is no
-- round-trip time before the first answer.
pub pings_balanced :
    (now : ℕ) (cs : List Call)
    → let l = run (start now) cs in
      (l.sent ≡ l.answered + outstanding l.rtt.state)
      × (l.rtt.next_id ≡ l.sent % 2 ^ 32)
      × ((l.rtt.rtt ≡ none) ⊎ (1 ≤ l.answered))
pings_balanced now cs =
    let v =
      run-Counted (start now) cs
        (unfold new outstanding in record { balance = refl; ids = refl; measured = inl refl }) in
    (v.balance, v.ids, v.measured)
