-- ===== src/FlowControl/Inv.antt =====
-- The invariant of a flow controller, and that it makes every assertion and subtraction safe.
use rust_yamux.Common.{
  refl, ℕ, Option, ◌≤◌, ◌≡◌, some, arith, ◌+◌, ◌-◌, ◌*◌, none, Returns, ◌<◌, ◌/◌, ◌>>=◌,
  Returns-bind, ok, ◌⊎◌, err,
}
use rust_yamux.Common.Words.{u32_max}
use rust_yamux.Config.{Config, window_limit, default_credit}
use rust_yamux.Config.Laws
use rust_yamux.FlowControl.{
  FlowController, next_window_update, spare, assert_invariants, tune, settle, consume_send_window,
  consume_receive_window, increase_send_window_by, invalid_window_update,
}

-- What `assert_invariants` checks, with the bounds of the integers and of the shared counter. The
-- unread bytes of the stream and the credit that the remote has left make up the window at most.
pub record Inv (c : Config) (rtt : Option ℕ) (acc : ℕ) (fc : FlowController) (buffer_len : ℕ)
    : Type 0 where
  pub config : Laws.IsValid c
  pub streams : 1 ≤ c.max_num_streams
  pub max_u32 : fc.max_receive_window ≤ u32_max
  pub max_least : default_credit ≤ fc.max_receive_window
  pub within : fc.receive_window + buffer_len ≤ fc.max_receive_window
  pub counted : fc.max_receive_window ≤ acc + default_credit
  pub spared : acc + c.max_num_streams * default_credit ≤ window_limit c
  pub unmeasured : rtt ≡ none → fc.max_receive_window ≡ default_credit

spare_room :
    (c : Config)
    → Laws.IsValid c
    → spare c ≡ some (window_limit c - c.max_num_streams * default_credit)
unfolding spare
spare_room c v = ground arith

assert_invariants_hold :
    (c : Config) (rtt : Option ℕ) (acc : ℕ) (fc : FlowController) (b : ℕ)
    → Inv c rtt acc fc b
    → assert_invariants c rtt acc fc b ≡ some tt
unfolding assert_invariants
assert_invariants_hold c none acc fc b v = ground (arith, spare_room c v.config, v.unmeasured refl)
assert_invariants_hold c (some r) acc fc b v = ground (arith, spare_room c v.config)

-- The window is at most doubled, and the counter grows with it.
abbrev Tuned : Config → Option ℕ → ℕ → FlowController → ℕ → ℕ × ℕ × FlowController → Type 0
Tuned c rtt acc fc b (credit, acc', fc') =
    (credit + fc'.receive_window + b ≡ fc'.max_receive_window)
    × (fc'.receive_window ≡ fc.receive_window)
    × (fc'.send_window ≡ fc.send_window)
    × (fc.max_receive_window ≤ fc'.max_receive_window)
    × (fc'.max_receive_window ≤ 2 * fc.max_receive_window)
    × (acc' + fc.max_receive_window ≡ acc + fc'.max_receive_window)
    × Inv c rtt acc' fc' b

tune-Tuned :
    (c : Config) (rtt : Option ℕ) (now acc : ℕ) (fc : FlowController) (b credit : ℕ)
    → Inv c rtt acc fc b
    → credit + fc.receive_window + b ≡ fc.max_receive_window
    → Returns (Tuned c rtt acc fc b) (tune c rtt now acc fc b credit)
unfolding tune
tune-Tuned c none now acc fc b credit v h = ground (arith, v.unmeasured refl)
tune-Tuned c (some r) now acc fc b credit v h = ground (arith, spare_room c v.config)

-- What `next_window_update` may return: no grant and no change, where less than half of the window
-- could be granted, or a grant that restores the whole window less the unread bytes.
abbrev pub Updated :
    Config → Option ℕ → ℕ → ℕ → FlowController → ℕ → Option ℕ × ℕ × FlowController → Type 0
Updated c rtt later acc fc b (none, acc', fc') =
    (fc.max_receive_window < fc.receive_window + b + fc.max_receive_window / 2)
    × (acc' ≡ acc)
    × (fc' ≡ fc)
Updated c rtt later acc fc b (some credit, acc', fc') =
    (fc.max_receive_window / 2 ≤ credit)
    × (fc'.receive_window ≡ fc.receive_window + credit)
    × (fc'.receive_window + b ≡ fc'.max_receive_window)
    × (fc'.send_window ≡ fc.send_window)
    × (fc'.last_window_update ≡ later)
    × (fc.max_receive_window ≤ fc'.max_receive_window)
    × (fc'.max_receive_window ≤ 2 * fc.max_receive_window)
    × (acc' + fc.max_receive_window ≡ acc + fc'.max_receive_window)
    × Inv c rtt acc' fc' b

settle-Updated :
    (c : Config) (rtt : Option ℕ) (later acc : ℕ) (fc : FlowController) (b credit : ℕ)
    → fc.max_receive_window / 2 ≤ credit
    → credit + fc.receive_window + b ≡ fc.max_receive_window
    → (t : ℕ × ℕ × FlowController) → Tuned c rtt acc fc b t
    → Returns (Updated c rtt later acc fc b) (settle c rtt later b t)
unfolding settle
settle-Updated c rtt later acc fc b credit half sum (g, acc', fc') t =
    ground (arith, assert_invariants_hold c rtt acc' fc'' b after)
  where
    fc'' : FlowController
    fc'' = record fc' { last_window_update = later; receive_window = fc'.receive_window + g }

    after : Inv c rtt acc' fc'' b
    after = ground arith

-- A flow controller that meets its invariant never panics in `next_window_update`, whatever the
-- clock says: the outcome is one of the two that `Updated` describes.
pub next_window_update-Updated :
    (c : Config) (rtt : Option ℕ) (now later acc : ℕ) (fc : FlowController) (b : ℕ)
    → Inv c rtt acc fc b
    → Returns (Updated c rtt later acc fc b) (next_window_update c rtt now later acc fc b)
unfolding next_window_update
next_window_update-Updated c rtt now later acc fc b v =
    rw (assert_invariants_hold c rtt acc fc b v) (ground (arith, tail))
  where
    credit : ℕ
    credit = fc.max_receive_window - fc.receive_window - b

    tail :
        fc.max_receive_window / 2 ≤ credit
        → Returns
            (Updated c rtt later acc fc b)
            (tune c rtt now acc fc b credit >>= settle c rtt later b)
    tail half =
        Returns-bind (Tuned c rtt acc fc b) _ (tune c rtt now acc fc b credit) _
          (tune-Tuned c rtt now acc fc b credit v (omega arith))
          (settle-Updated c rtt later acc fc b credit half (omega arith))

-- The three window operations succeed exactly within their bounds and change one window alone: the
-- send window is not overdrawn and does not overflow, and data that arrives keeps the invariant if
-- the receive window admits it.
pub windows_lem :
    (fc : FlowController) (i : ℕ)
    → ((consume_send_window fc i ≡ ok (record fc { send_window = fc.send_window - i }))
          × (i ≤ fc.send_window)
        ⊎ (consume_send_window fc i ≡ err invalid_window_update) × (fc.send_window < i))
      × ((increase_send_window_by fc i ≡ ok (record fc { send_window = fc.send_window + i }))
            × (fc.send_window + i ≤ u32_max)
          ⊎ (increase_send_window_by fc i ≡ err invalid_window_update)
            × (u32_max < fc.send_window + i))
      × ((consume_receive_window fc i ≡ ok (record fc { receive_window = fc.receive_window - i }))
            × (i ≤ fc.receive_window)
          ⊎ (consume_receive_window fc i ≡ err invalid_window_update) × (fc.receive_window < i))
unfolding consume_send_window increase_send_window_by consume_receive_window
windows_lem fc i = (ground arith, ground arith, ground arith)

pub consume_receive_window-Inv :
    (c : Config) (rtt : Option ℕ) (acc : ℕ) (fc fc' : FlowController) (b i : ℕ)
    → Inv c rtt acc fc b
    → consume_receive_window fc i ≡ ok fc'
    → Inv c rtt acc fc' (b + i)
unfolding consume_receive_window
consume_receive_window-Inv c rtt acc fc fc' b i v e = ground arith
