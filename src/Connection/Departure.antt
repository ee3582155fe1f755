-- ===== src/Connection/Departure.antt =====
-- `Active`: how streams leave the connection, and what happens to the frames that come too late.
use rust_yamux.Common.{
  Bool-cases, inl, inr, ◌==◌, append-nil, append_assoc, List, sym, ap, ◌∙◌, subst, ℕ, ◌≡◌, refl,
  true, false, arith, none, some, if◌then◌else◌, [], ◌∷◌, ◌++◌, ok,
}
use rust_yamux.Action.{no_action}
use rust_yamux.Frame.{Frame}
use rust_yamux.Frame
use rust_yamux.Frame.Header
use rust_yamux.Frame.Header.{
  Tag, data_tag, window_update_tag, ping_tag, go_away_tag, contains, syn_flag, rst_flag, ack_flag,
  fin_flag,
}
use rust_yamux.Stream.State
use rust_yamux.Stream.Shared.{Shared, update_state}
use rust_yamux.Connection.StreamMap.{StreamMap, get, contains_key, get-remove}
use rust_yamux.Connection.Active.{Active, close_at, waker_list, drop_all, drop_all_streams}
use rust_yamux.Connection.Removal.{reset, on_drop_stream, farewell}
use rust_yamux.Connection.Handlers.{
  dispatch, on_frame, on_data, on_window_update, is_stream_tag, dispatch,
}

-- The shared state of a stream that is over: closed, and nobody waits for it.
abbrev pub Ended : Shared → Type 0
Ended s = (s.state ≡ State.closed) × (s.reader ≡ none) × (s.writer ≡ none)

-- The tasks that wait for the stream at `a`.
abbrev pub waiting : ℕ → (ℕ → Shared) → List ℕ
waiting a heap = waker_list (heap a).reader ++ waker_list (heap a).writer

-- All of `tasks` are woken, in order.
abbrev pub Woke : List ℕ → List ℕ → Type 0
Woke tasks log = (before : List ℕ) × (after : List ℕ) × (log ≡ before ++ (tasks ++ after))

-- Every stream of `m` is closed, keeps its bytes, and the tasks that waited for it are woken.
abbrev pub Released : StreamMap → (ℕ → Shared) → (ℕ → Shared) → List ℕ → Type 0
Released m heap heap' log =
    (i a : ℕ)
    → get i m ≡ some a
    → Ended (heap' a) × ((heap' a).buffer ≡ (heap a).buffer) × Woke (waiting a heap) log

module _ {R T : Type 0} where
  -- The stream `id` at `a` has left the map, is closed, its bytes are kept, and its tasks are woken.
  abbrev pub Left : ℕ → ℕ → Active R T → Active R T → Type 0
  Left id a c c' =
      (get id c'.streams ≡ none)
      × Ended (c'.heap a)
      × ((c'.heap a).buffer ≡ (c.heap a).buffer)
      × (c'.woken ≡ (c.woken ++ waker_list (c.heap a).reader) ++ waker_list (c.heap a).writer)

  reset_lem : (id a : ℕ) (c : Active R T) → get id c.streams ≡ some a → Left id a c (reset id c)
  unfolding reset close_at update_state
  reset_lem id a c e = ground (arith, get-remove id id c.streams)

  -- Dropping the handle of a stream of the map takes the stream out of the map, closes it, keeps its
  -- bytes and wakes its tasks. The remote is told by a frame exactly if this side could still write:
  -- with RST if it could also read, else with FIN.
  pub drop_lem :
      (id a : ℕ) (c : Active R T)
      → get id c.streams ≡ some a
      → Left id a c (on_drop_stream id c).1
        × ((on_drop_stream id c).0 ≡ (
            if State.can_write (c.heap a).state
            then (if State.can_read (c.heap a).state
                then some (Frame.new (Header.rst (Header.data_header id 0)))
                else some (Frame.new (Header.fin (Header.data_header id 0))))
            else none))
  unfolding on_drop_stream close_at update_state farewell State.can_write State.can_read
      State.next_state
  drop_lem id a c e = ground (arith, get-remove id id c.streams)

  close_at-Ended : (a b : ℕ) (c : Active R T) → Ended (c.heap a) → Ended ((close_at b c).heap a)
  unfolding close_at update_state
  close_at-Ended a b c h = ground arith

  ends : (a : ℕ) (c : Active R T) → Ended ((close_at a c).heap a)
  unfolding close_at update_state
  ends a c = ground arith

  closes_woken : (b : ℕ) (c : Active R T) → (close_at b c).woken ≡ c.woken ++ waiting b c.heap
  unfolding close_at update_state
  closes_woken b c =
      ground
        (arith, append_assoc c.woken (waker_list (c.heap b).reader) (waker_list (c.heap b).writer))

  close_at-other : (a b : ℕ) (c : Active R T) → (a == b) ≡ false → (close_at b c).heap a ≡ c.heap a
  unfolding close_at update_state
  close_at-other a b c q = ground (arith, q)

  close_at-buffer : (a b : ℕ) (c : Active R T) → ((close_at b c).heap a).buffer ≡ (c.heap a).buffer
  unfolding close_at update_state
  close_at-buffer a b c = ground arith

  drop_all-Ended :
      (m : StreamMap) (a : ℕ) (c : Active R T) → Ended (c.heap a) → Ended ((drop_all m c).heap a)
  unfolding drop_all
  drop_all-Ended [] a c h = h
  drop_all-Ended ((k, b) ∷ m) a c h = drop_all-Ended m a (close_at b c) (close_at-Ended a b c h)

  drop_all_lem :
      (m : StreamMap) (i a : ℕ) (c : Active R T) → get i m ≡ some a → Ended ((drop_all m c).heap a)
  unfolding drop_all get
  drop_all_lem [] i a c e = absurd (ground arith)
  drop_all_lem ((k, b) ∷ m) i a c e =
      ground
        (arith, drop_all_lem m i a (close_at b c), drop_all-Ended m b (close_at b c) (ends b c))

  drop_all-woken :
      (m : StreamMap) (c : Active R T)
      → (later : List ℕ) × ((drop_all m c).woken ≡ c.woken ++ later)
  unfolding drop_all close_at
  drop_all-woken [] c = ([], sym (append-nil c.woken))
  drop_all-woken ((k, b) ∷ m) c =
      let (l, e) = drop_all-woken m (close_at b c) in
      (
        waiting b c.heap ++ l,
        e ∙ ap (λ x. x ++ l) (closes_woken b c) ∙ append_assoc c.woken (waiting b c.heap) l,
      )

  drop_all-wakes :
      (m : StreamMap) (i a : ℕ) (c : Active R T)
      → get i m ≡ some a
      → Woke (waiting a c.heap) (drop_all m c).woken
  unfolding drop_all get
  drop_all-wakes [] i a c e = absurd (ground arith)
  drop_all-wakes ((k, b) ∷ m) i a c e = elim (Bool-cases (a == b)) [
    | inl q ↦
        let (l, p) = drop_all-woken m (close_at b c) in
        let same : a ≡ b = ground (arith, q) in
        (
          c.woken,
          l,
          p
              ∙ ap (λ x. x ++ l)
                  (closes_woken b c ∙ ap (λ x. c.woken ++ waiting x c.heap) (sym same))
              ∙ append_assoc c.woken (waiting a c.heap) l,
        )
    | inr q ↦
        let there : get i m ≡ some a = ground (arith, e, q) in
        subst
          (λ s. Woke (waker_list s.reader ++ waker_list s.writer) (drop_all m (close_at b c)).woken)
          (close_at-other a b c q) (drop_all-wakes m i a (close_at b c) there)
  ]

  drop_all-buffer :
      (m : StreamMap) (a : ℕ) (c : Active R T) → ((drop_all m c).heap a).buffer ≡ (c.heap a).buffer
  unfolding drop_all
  drop_all-buffer [] a c = refl
  drop_all-buffer ((k, b) ∷ m) a c = drop_all-buffer m a (close_at b c) ∙ close_at-buffer a b c

  -- Dropping all streams empties the map, leaves every stream that was in it closed, with its bytes
  -- and with nobody who waits for it, and wakes the tasks that waited.
  pub drops_all :
      (c : Active R T)
      → ((drop_all_streams c).streams ≡ [])
        × Released c.streams c.heap (drop_all_streams c).heap (drop_all_streams c).woken
  unfolding drop_all_streams
  drops_all c = (
    refl,
    (λ i a e. (
      drop_all_lem c.streams i a c e,
      drop_all-buffer c.streams a c,
      drop_all-wakes c.streams i a c e,
    )),
  )

module _ {R T : Type 0} (push : ℕ → ℕ → R → R) (now later : ℕ) (f : Frame) (c : Active R T) where
  -- A data frame or a window update with RST, and without SYN and ACK, for a stream of the map takes
  -- the stream out of the map, closes it, keeps its bytes and wakes its tasks.
  pub resets :
      (a : ℕ)
      → contains f.header.flags rst_flag ≡ true
      → contains f.header.flags syn_flag ≡ false
      → contains f.header.flags ack_flag ≡ false
      → is_stream_tag f.header.tag ≡ true
      → get f.header.stream_id c.streams ≡ some a
      → ((on_frame push now later f c).0 ≡ ok no_action)
        × Left f.header.stream_id a c (on_frame push now later f c).1
  unfolding on_frame contains_key dispatch on_data on_window_update is_stream_tag
  resets a r s k t e = ground (arith, reset_lem f.header.stream_id a c e)
