-- ===== src/Harness/Laws.antt =====
-- What the tasks rely on: a set of workers that counts them, and a connection whose loops end.
use rust_yamux.Common.{
  ℕ, ◌+◌, ◌≡◌, ◌≢◌, ◌<◌, suc, true, Option, none, some, Poll, ready, pending, panicked, stuck,
  arith, zero,
}
use rust_yamux.Harness.{Peer, Workers, run}

-- What `FuturesUnordered` documents of the number of its futures: an item takes one away, and there is
-- no item exactly if there is no future.
abbrev pub Took : {W A : Type 0} → (W → ℕ) → ℕ → Poll (Option A) × W → Type 0
Took size n (ready (some a), w) = size w + 1 ≡ n
Took size n (ready none, w) = (n ≡ 0) × (size w ≡ 0)
Took size n (pending, w) = size w ≡ n
Took size n (panicked, w) = Unit {0}
Took size n (stuck, w) = ⊥

pub record Counted {W J A : Type 0} (workers : Workers W J A) : Type 0 where
  pub size : W → ℕ
  pub adds : (j : J) (w : W) → size (workers.push j w) ≡ size w + 1
  pub takes : (w : W) → Took size (size w) (workers.poll_next w)
  pub empty : (w : W) → workers.is_empty w ≡ true → size w ≡ 0

-- The fuel of the connection's loops is enough.
pub record Responsive {S : Type 0} (peer : Peer S) : Type 0 where
  pub outbound : (s : S) → (peer.poll_new_outbound s).0 ≢ stuck
  pub inbound : (s : S) → (peer.poll_next_inbound s).0 ≢ stuck
  pub closing : (s : S) → (peer.poll_close s).0 ≢ stuck

-- A loop whose turns make a measure smaller ends, with what its last turn ends with.
module _ {A X : Type 0} (turn : X → Option (Poll A) × X) (work : X → ℕ)
    (Ends : X → Poll A × X → Type 0) where
  abbrev pub Turns : X → Option (Poll A) × X → Type 0
  Turns x (none, y) = (work y < work x) × ((out : Poll A × X) → Ends y out → Ends x out)
  Turns x (some a, y) = Ends x (a, y)

  pub run_ends :
      ((x : X) → Turns x (turn x)) → (fuel : ℕ) (x : X) → work x < fuel → Ends x (run turn fuel x)
  unfolding run
  run_ends h zero x l = absurd (omega arith)
  run_ends h (suc n) x l = go (turn x) (h x) (λ y m. run_ends h n y m)
    where
      go :
          (t : Option (Poll A) × X)
          → Turns x t
          → ((y : X) → work y < n → Ends y (run turn n y))
          → Ends x (let (r, x') = t in elim r [ none ↦ run turn n x' | some a ↦ (a, x') ])
      go (none, y) k ih = k.1 _ (ih y (omega (arith, k.0)))
      go (some a, y) k ih = k
