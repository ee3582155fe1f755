-- ===== src/Connection/Inv.antt =====
-- `Active`: what always holds of the map of streams, the next identifier and the heap.
use rust_yamux.Common.{ℕ, ◌+◌, ◌≡◌, ◌≤◌, ◌<◌, true, some, length, arith, ◌⊎◌, inl, inr}
use rust_yamux.Config.{Config}
use rust_yamux.Connection.StreamMap.{
  StreamMap, get, remove, insert, get-remove, get-insert, length-remove,
}
use rust_yamux.Connection.Active.{Mode, Active}
use rust_yamux.Connection.Opening.{parity}

-- No more streams than the limit; the next identifier has the parity of the mode; every stream has an
-- address that is in use, and no two streams share one.
pub record Sound (config : Config) (mode : Mode) (next_id fresh : ℕ) (m : StreamMap) : Type 0 where
  pub within : length m ≤ config.max_num_streams
  pub next : parity mode next_id ≡ true
  pub allocated : (i a : ℕ) → get i m ≡ some a → a < fresh
  pub apart : (i j a : ℕ) → get i m ≡ some a → get j m ≡ some a → i ≡ j

abbrev pub IsValid : {R T : Type 0} → Active R T → Type 0
IsValid c = Sound c.config c.mode c.next_id c.fresh c.streams

module _ (m : StreamMap) where
  get_removed : (i id a : ℕ) → get i (remove id m) ≡ some a → get i m ≡ some a
  get_removed i id a e = ground (arith, get-remove i id m)

  get_inserted :
      (i id a b : ℕ) → get i (insert id a m) ≡ some b → ((i ≡ id) × (a ≡ b)) ⊎ (get i m ≡ some b)
  get_inserted i id a b e = ground (arith, get-insert i id a m)

  length-insert : (id a : ℕ) → length (insert id a m) ≤ length m + 1
  unfolding insert
  length-insert id a = omega (arith, length-remove id m)

abbrev Allocated : StreamMap → ℕ → Type 0
Allocated m fresh = (i a : ℕ) → get i m ≡ some a → a < fresh

abbrev Apart : StreamMap → Type 0
Apart m = (i j a : ℕ) → get i m ≡ some a → get j m ≡ some a → i ≡ j

Allocated-insert :
    (m : StreamMap) (fresh id : ℕ) → Allocated m fresh → Allocated (insert id fresh m) (fresh + 1)
Allocated-insert m fresh id h i a e = elim (get_inserted m i id fresh a e) [
  | inl p ↦ omega (arith, p.1)
  | inr p ↦ omega (arith, h i a p)
]

Apart-insert :
    (m : StreamMap) (fresh id : ℕ) → Allocated m fresh → Apart m → Apart (insert id fresh m)
Apart-insert m fresh id h k i j a e f = elim (get_inserted m i id fresh a e) [
  | inl p ↦ elim (get_inserted m j id fresh a f) [
    | inl q ↦ omega (arith, p.0, q.0)
    | inr q ↦ absurd (omega (arith, p.1, h j a q))
  ]
  | inr p ↦ elim (get_inserted m j id fresh a f) [
    | inl q ↦ absurd (omega (arith, q.1, h i a p))
    | inr q ↦ k i j a p q
  ]
]

module _ {config : Config} {mode : Mode} {next_id fresh : ℕ} {m : StreamMap} where
  pub Sound-remove :
      (id : ℕ) → Sound config mode next_id fresh m → Sound config mode next_id fresh (remove id m)
  Sound-remove id s = record {
    within = omega (arith, length-remove id m, s.within);
    next = s.next;
    allocated = λ i a e. s.allocated i a (get_removed m i id a e);
    apart = λ i j a e f. s.apart i j a (get_removed m i id a e) (get_removed m j id a f);
  }

  pub Sound-insert :
      (id : ℕ)
      → length m < config.max_num_streams
      → Sound config mode next_id fresh m
      → Sound config mode next_id (fresh + 1) (insert id fresh m)
  Sound-insert id l s = record {
    within = omega (arith, length-insert m id fresh);
    next = s.next;
    allocated = Allocated-insert m fresh id s.allocated;
    apart = Apart-insert m fresh id s.allocated s.apart;
  }
