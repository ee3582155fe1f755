-- ===== src/Connection/Backlog.antt =====
-- `Active`: the streams that the remote has not acknowledged never exceed the backlog.
pub mod Steps
use rust_yamux.Common.{
  ℕ, ◌+◌, ◌≤◌, ◌<◌, ◌≡◌, ◌⊎◌, refl, Bool, true, false, List, [], ◌∷◌, All, arith, inl, inr,
}
use rust_yamux.Config.{max_ack_backlog}
use rust_yamux.Stream.Shared.{Shared, is_pending_ack}
use rust_yamux.Connection.StreamMap.{StreamMap, remove, insert}
use rust_yamux.Connection.Active.{Mode, Active}
use rust_yamux.Connection.Opening.{parity, pending_acks, ack_backlog}

-- Every address of the map is in use.
abbrev pub Used : ℕ → StreamMap → Type 0
Used fresh m = All (λ (e : ℕ × ℕ). e.1 < fresh) m

pub record Bounded {R T : Type 0} (c : Active R T) : Type 0 where
  pub backlog : ack_backlog c ≤ max_ack_backlog
  pub used : Used c.fresh c.streams

-- No address below `fresh` waits for an acknowledgement that did not before.
abbrev pub Calms : ℕ → (ℕ → Shared) → (ℕ → Shared) → Type 0
Calms fresh before after =
    (a : ℕ) → a < fresh → is_pending_ack (after a) ≡ true → is_pending_ack (before a) ≡ true

pending_acks-calm :
    (mode : Mode) (before after : ℕ → Shared) (fresh : ℕ) (m : StreamMap)
    → Used fresh m
    → Calms fresh before after
    → pending_acks mode after m ≤ pending_acks mode before m
unfolding pending_acks
pending_acks-calm mode before after fresh [] u h = omega arith
pending_acks-calm mode before after fresh ((id, a) ∷ m) u h =
    ground (arith, h a u.0, pending_acks-calm mode before after fresh m u.1 h)

pending_acks-remove :
    (mode : Mode) (heap : ℕ → Shared) (id : ℕ) (m : StreamMap)
    → pending_acks mode heap (remove id m) ≤ pending_acks mode heap m
unfolding pending_acks remove
pending_acks-remove mode heap id [] = omega arith
pending_acks-remove mode heap id ((k, a) ∷ m) = ground (arith, pending_acks-remove mode heap id m)

Used-remove : (fresh id : ℕ) (m : StreamMap) → Used fresh m → Used fresh (remove id m)
unfolding remove
Used-remove fresh id [] u = tt
Used-remove fresh id ((k, a) ∷ m) u = ground (arith, Used-remove fresh id m u.1)

Used-grows : (fresh more : ℕ) (m : StreamMap) → fresh ≤ more → Used fresh m → Used more m
Used-grows fresh more [] h u = tt
Used-grows fresh more (e ∷ m) h u = (omega (arith, u.0), Used-grows fresh more m h u.1)

-- What a step may do to the map: nothing, remove `id`, or add `id` as a stream of the remote.
pub record KeepsBacklog {R T : Type 0} (id : ℕ) (c d : Active R T) : Type 0 where
  pub mode : d.mode ≡ c.mode
  pub calms : Calms c.fresh c.heap d.heap
  pub streams :
      ((d.fresh ≡ c.fresh) × (d.streams ≡ c.streams))
      ⊎ ((d.fresh ≡ c.fresh) × (d.streams ≡ remove id c.streams))
      ⊎ ((d.fresh ≡ c.fresh + 1)
          × (d.streams ≡ insert id c.fresh c.streams)
          × (parity c.mode id ≡ false))

pub KeepsBacklog-Bounded :
    {R T : Type 0} (id : ℕ) (c d : Active R T) → KeepsBacklog id c d → Bounded c → Bounded d
unfolding ack_backlog insert pending_acks
KeepsBacklog-Bounded id c d s b =
    let k = pending_acks-calm c.mode c.heap d.heap c.fresh in
    elim s.streams [
      | inl (f, m) ↦ record {
        backlog = rw (s.mode, m) (omega (arith, b.backlog, k c.streams b.used s.calms));
        used = rw (f, m) b.used;
      }
      | inr (inl (f, m)) ↦
          let u = Used-remove c.fresh id c.streams b.used in
          record {
            backlog =
                rw (s.mode, m)
                  (omega (
                    arith,
                    b.backlog,
                    k (remove id c.streams) u s.calms,
                    pending_acks-remove c.mode c.heap id c.streams,
                  ));
            used = rw (f, m) u;
          }
      | inr (inr (f, m, p)) ↦
          let u = Used-remove c.fresh id c.streams b.used in
          record {
            backlog =
                rw (s.mode, m, p)
                  (omega (
                    arith,
                    b.backlog,
                    k (remove id c.streams) u s.calms,
                    pending_acks-remove c.mode c.heap id c.streams,
                  ));
            used =
                rw (f, m)
                  (
                    omega arith,
                    Used-grows c.fresh (c.fresh + 1) (remove id c.streams) (omega arith) u,
                  );
          }
    ]

-- What a step of this side may do: nothing to the map, or add `id` where the backlog has room.
pub record Opens {R T : Type 0} (id : ℕ) (c d : Active R T) : Type 0 where
  pub mode : d.mode ≡ c.mode
  pub calms : Calms c.fresh c.heap d.heap
  pub streams :
      ((d.fresh ≡ c.fresh) × (d.streams ≡ c.streams))
      ⊎ ((d.fresh ≡ c.fresh + 1)
          × (d.streams ≡ insert id c.fresh c.streams)
          × (ack_backlog c < max_ack_backlog))

pub Opens-Bounded :
    {R T : Type 0} (id : ℕ) (c d : Active R T) → Opens id c d → Bounded c → Bounded d
unfolding ack_backlog insert pending_acks
Opens-Bounded id c d s b =
    let k = pending_acks-calm c.mode c.heap d.heap c.fresh in
    elim s.streams [
      | inl (f, m) ↦ record {
        backlog = rw (s.mode, m) (omega (arith, b.backlog, k c.streams b.used s.calms));
        used = rw (f, m) b.used;
      }
      | inr (f, m, l) ↦
          let u = Used-remove c.fresh id c.streams b.used in
          record {
            backlog =
                rw (s.mode, m)
                  (ground (
                    arith,
                    l,
                    k (remove id c.streams) u s.calms,
                    pending_acks-remove c.mode c.heap id c.streams,
                  ));
            used =
                rw (f, m)
                  (
                    omega arith,
                    Used-grows c.fresh (c.fresh + 1) (remove id c.streams) (omega arith) u,
                  );
          }
    ]
