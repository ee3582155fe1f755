-- ===== src/FlowControl/Shared/Windows.antt =====
-- connection/stream/flow_control.rs: what the streams and their connection keep of the windows.
use rust_yamux.Common.{
  ℕ, ◌+◌, ◌-◌, ◌*◌, ◌≤◌, ◌≡◌, ap, Option, none, some, List, [], ◌∷◌, ◌++◌, arith, All, All-append,
  All-append_left, All-append_right, length, Returns, refl, ◌≢◌,
}
use rust_yamux.Common.Words.{u32_max}
use rust_yamux.Config.{Config, window_limit, default_credit}
use rust_yamux.Config.Laws
use rust_yamux.FlowControl.{
  FlowController, new, next_window_update, consume_receive_window, consume_send_window,
  increase_send_window_by, drop,
}
use rust_yamux.FlowControl.Inv.{Inv, Updated, next_window_update-Updated}
use rust_yamux.FlowControl.Shared.{
  Entry, Conn, Step, open_stream, measure, update, receive, read, send, credit, drop_stream, Reach,
  here, next, extra, windows,
}

record Local (rtt : Option ℕ) (e : Entry) : Type 0 where
  max_u32 : e.0.max_receive_window ≤ u32_max
  max_least : default_credit ≤ e.0.max_receive_window
  within : e.0.receive_window + e.1 ≤ e.0.max_receive_window
  unmeasured : rtt ≡ none → e.0.max_receive_window ≡ default_credit

record Safe (c : Config) (s : Conn) : Type 0 where
  each : All (Local s.rtt) s.live
  total : extra s.live ≡ s.counter
  spared : s.counter + c.max_num_streams * default_credit ≤ window_limit c

extra-append : (xs ys : List Entry) → extra (xs ++ ys) ≡ extra xs + extra ys
unfolding extra
extra-append [] ys = omega arith
extra-append ((fc, b) ∷ xs) ys = omega (arith, extra-append xs ys)

-- One controller of a safe connection, seen alone.
module _ (c : Config) (s : Conn) (v : Laws.IsValid c) (n : 1 ≤ c.max_num_streams) (safe : Safe c s)
    (before after : List Entry) (fc : FlowController) (b : ℕ)
    (e : s.live ≡ before ++ ((fc, b) ∷ after)) where
  at : Local s.rtt (fc, b)
  at = (All-append_right (Local s.rtt) before ((fc, b) ∷ after) (rw e at safe.each)).0

  alone : Inv c s.rtt s.counter fc b
  unfolding extra
  alone = ground (arith, at, extra-append before ((fc, b) ∷ after), ap extra e)

  -- The others keep their place when this one is replaced, or leaves.
  replaced :
      (x : Entry) (counter : ℕ)
      → Local s.rtt x
      → counter + fc.max_receive_window ≡ s.counter + x.0.max_receive_window
      → counter + c.max_num_streams * default_credit ≤ window_limit c
      → Safe c (record s { counter = counter; live = before ++ (x ∷ after) })
  unfolding extra
  replaced x counter l grown spared = record {
    each =
        All-append (Local s.rtt) before (x ∷ after)
          (All-append_left (Local s.rtt) before ((fc, b) ∷ after) (rw e at safe.each))
          (l, (All-append_right (Local s.rtt) before ((fc, b) ∷ after) (rw e at safe.each)).1);
    total = ground (
      arith,
      at,
      extra-append before ((fc, b) ∷ after),
      extra-append before (x ∷ after),
      ap extra e,
      safe.total,
    );
    spared = spared;
  }

  removed :
      (counter : ℕ)
      → counter + fc.max_receive_window ≡ s.counter + default_credit
      → Safe c (record s { counter = counter; live = before ++ after })
  unfolding extra
  removed counter fallen = record {
    each =
        All-append (Local s.rtt) before after
          (All-append_left (Local s.rtt) before ((fc, b) ∷ after) (rw e at safe.each))
          (All-append_right (Local s.rtt) before ((fc, b) ∷ after) (rw e at safe.each)).1;
    total = ground (
      arith,
      at,
      extra-append before ((fc, b) ∷ after),
      extra-append before after,
      ap extra e,
      safe.total,
    );
    spared = omega (arith, at, safe.spared);
  }

drop_lem :
    (acc : ℕ) (fc : FlowController)
    → default_credit ≤ fc.max_receive_window
    → fc.max_receive_window ≤ acc + default_credit
    → drop acc fc ≡ some (acc - (fc.max_receive_window - default_credit))
unfolding drop
drop_lem acc fc h k = ground arith

All-measured :
    (rtt : Option ℕ) (r : ℕ) (es : List Entry) → All (Local rtt) es → All (Local (some r)) es
All-measured rtt r [] h = tt
All-measured rtt r (x ∷ es) h = (
  record {
    max_u32 = h.0.max_u32;
    max_least = h.0.max_least;
    within = h.0.within;
    unmeasured = λ e. cc;
  },
  All-measured rtt r es h.1,
)

module _ (c : Config) (v : Laws.IsValid c) (n : 1 ≤ c.max_num_streams) where
  update-Safe :
      {s : Conn}
      → Safe c s
      → (before after : List Entry) (fc : FlowController) (b later : ℕ)
        (r : Option ℕ × ℕ × FlowController)
      → s.live ≡ before ++ ((fc, b) ∷ after)
      → Updated c s.rtt later s.counter fc b r
      → Safe c (record s { counter = r.1; live = before ++ ((r.2, b) ∷ after) })
  update-Safe {s} safe before after fc b later (none, acc', fc') e u =
      let l = at c s v n safe before after fc b e in
      replaced c s v n safe before after fc b e (fc', b) acc' (ground (arith, l))
        (ground (arith, l)) (ground (arith, safe.spared))
  update-Safe {s} safe before after fc b later (some g, acc', fc') e u =
      replaced c s v n safe before after fc b e (fc', b) acc' (ground arith) (ground arith)
        (ground arith)

  Step-Safe : {s t : Conn} → Safe c s → Step c s t → Safe c t
  unfolding extra new consume_receive_window consume_send_window increase_send_window_by
  Step-Safe {s} safe (open_stream w now) = ground (arith, safe.total, safe.each)
  Step-Safe {s} safe (measure r) = record {
    each = All-measured s.rtt r s.live safe.each;
    total = safe.total;
    spared = safe.spared;
  }
  Step-Safe {s} safe (update before after fc b now later r e u) =
      update-Safe safe before after fc b later r e (
        rw u at (
          next_window_update-Updated c s.rtt now later s.counter fc b
            (alone c s v n safe before after fc b e)))
  Step-Safe {s} safe (receive before after fc fc' b i e u) =
      let l = at c s v n safe before after fc b e in
      replaced c s v n safe before after fc b e (fc', b + i) s.counter (ground (arith, l))
        (ground (arith, l)) safe.spared
  Step-Safe {s} safe (read before after fc b k e) =
      let l = at c s v n safe before after fc (b + k) e in
      replaced c s v n safe before after fc (b + k) e (fc, b) s.counter (ground (arith, l))
        (ground (arith, l)) safe.spared
  Step-Safe {s} safe (send before after fc fc' b i e u) =
      let l = at c s v n safe before after fc b e in
      replaced c s v n safe before after fc b e (fc', b) s.counter (ground (arith, l))
        (ground (arith, l)) safe.spared
  Step-Safe {s} safe (credit before after fc fc' b i e u) =
      let l = at c s v n safe before after fc b e in
      replaced c s v n safe before after fc b e (fc', b) s.counter (ground (arith, l))
        (ground (arith, l)) safe.spared
  Step-Safe {s} safe (drop_stream before after fc b counter e u) =
      removed c s v n safe before after fc b e counter
        (ground (arith, drop_lem s.counter fc, alone c s v n safe before after fc b e))

  Reach-Safe : {s : Conn} → Reach c s → Safe c s
  unfolding extra
  Reach-Safe here = ground (arith, v)
  Reach-Safe (next r t) = Step-Safe (Reach-Safe r) t

windows-extra :
    (rtt : Option ℕ) (es : List Entry)
    → All (Local rtt) es
    → windows es ≡ extra es + length es * default_credit
unfolding windows extra
windows-extra rtt [] h = refl
windows-extra rtt (x ∷ es) h = ground (arith, h.0, windows-extra rtt es h.1)

-- In every state that a connection reaches, over any interleaving of the operations of its streams,
-- the shared counter is exactly what the live controllers have beyond the default window. Their
-- receive windows add up to no more than the configured limit and a default window for each
-- controller above `max_num_streams`, which the handle of a stream that has left the map may keep; so
-- they stay within the limit while at most `max_num_streams` controllers are live. The configuration
-- is valid and allows a stream.
pub Reach-windows :
    (c : Config)
    → Laws.IsValid c
    → 1 ≤ c.max_num_streams
    → (s : Conn) → Reach c s
    → (extra s.live ≡ s.counter)
      × (windows s.live ≤ window_limit c + (length s.live - c.max_num_streams) * default_credit)
Reach-windows c v n s r =
    let safe = Reach-Safe c v n r in
    let all = windows-extra s.rtt s.live safe.each in
    (safe.total, omega (arith, all, safe.total, safe.spared))

-- In every state that a connection reaches, neither `next_window_update` nor the drop of a live
-- stream's controller panics, and the update does what `Updated` says. The configuration is valid
-- and allows a stream.
pub Reach-next_window_update :
    (c : Config)
    → Laws.IsValid c
    → 1 ≤ c.max_num_streams
    → (s : Conn) → Reach c s
    → (before after : List Entry) (fc : FlowController) (b now later : ℕ)
    → s.live ≡ before ++ ((fc, b) ∷ after)
    → Returns
        (Updated c s.rtt later s.counter fc b)
        (next_window_update c s.rtt now later s.counter fc b)
      × (drop s.counter fc ≢ none)
Reach-next_window_update c v n s r before after fc b now later e =
    let i = alone c s v n (Reach-Safe c v n r) before after fc b e in
    (
      next_window_update-Updated c s.rtt now later s.counter fc b i,
      λ p. ground (arith, drop_lem s.counter fc, i),
    )
