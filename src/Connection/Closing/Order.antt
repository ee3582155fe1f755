-- ===== src/Connection/Closing/Order.antt =====
-- connection/closing.rs: a closing connection sends all that is left, then its last frame, and ends.
use rust_yamux.Common.{
  ℕ, zero, suc, ◌+◌, ◌*◌, ◌≡◌, ◌≤◌, ◌<◌, refl, sym, ap, subst, ◌∙◌, arith, append_assoc, append-nil,
  length, length-append, Option, none, some, List, [], ◌∷◌, ◌++◌, ok, err, ready, pending, panicked,
  stuck, All,
}
use rust_yamux.Frame.{Frame}
use rust_yamux.Frame
use rust_yamux.Frame.Io.{WriteResult, go_on}
use rust_yamux.Connection.Wires.{Next, blocked, ended, item, Receivers, Wire, command_frame}
use rust_yamux.Connection.Closing.Sending.{SendsInOrder, Readies, Closes, wire_bytes, bytes_of}
use rust_yamux.Connection.Closing.{
  State, closing_stream_receiver, draining_stream_receiver, flushing_pending_frames, closing_socket,
  Closing, drain, flush, send_next, close, turn, poll, new,
}

-- `queued` are the frames of the commands that are left, `left` bounds the items to come.
abbrev pub Yields : {R : Type 0} → (R → List Frame) → (R → ℕ) → R → Next × R → Type 0
Yields queued left r (item id (some cmd), r') =
    (queued r ≡ command_frame id cmd ∷ queued r') × (left r' < left r)
Yields queued left r (item id none, r') = (queued r ≡ queued r') × (left r' < left r)
Yields queued left r (blocked, r') = queued r ≡ []
Yields queued left r (ended, r') = queued r ≡ []

-- Closed receivers deliver what is queued, in order, before they are done, and there is an end.
pub record DeliversInOrder {R : Type 0} (recv : Receivers R) (queued : R → List Frame)
    (left : R → ℕ) : Type 0 where
  pub close_queued : (r : R) → queued (recv.close_all r) ≡ queued r
  pub close_left : (r : R) → left (recv.close_all r) ≤ left r
  pub yields : (r : R) → Yields queued left r (recv.poll_next r)

module _ {R T : Type 0} (recv : Receivers R) (wire : Wire T) (queued : R → List Frame)
    (left : R → ℕ) (accepted taken : T → List ℕ) (Fine : T → Type 0) (Fits : Frame → Type 0)
    (from : DeliversInOrder recv queued left)
    (to : SendsInOrder wire accepted taken Fine Fits) where
  -- The frames that are still to be sent.
  abbrev pub owed : State → Closing R T → List Frame
  owed closing_stream_receiver c =
      c.pending_frames ++ (queued c.stream_receivers ++ (Frame.term ∷ []))
  owed draining_stream_receiver c =
      c.pending_frames ++ (queued c.stream_receivers ++ (Frame.term ∷ []))
  owed flushing_pending_frames c = c.pending_frames
  owed closing_socket c = []

  abbrev turns : State → Closing R T → ℕ
  turns closing_stream_receiver c = 2 * left c.stream_receivers + length c.pending_frames + 5
  turns draining_stream_receiver c = 2 * left c.stream_receivers + length c.pending_frames + 4
  turns flushing_pending_frames c = length c.pending_frames + 2
  turns closing_socket c = 1

  -- `bytes` are those of what is accepted and of what is owed; the wire can go on, and takes each
  -- frame that is owed.
  abbrev pub Holds : State → List ℕ → Closing R T → Type 0
  Holds s bytes c =
      (accepted c.socket ++ wire_bytes (owed s c) ≡ bytes) × Fine c.socket × All Fits (owed s c)

  abbrev pub Told : List ℕ → WriteResult × Closing R T → Type 0
  Told bytes (ready (ok _), c) = taken c.socket ≡ bytes
  Told bytes (ready (err _), c) = Holds c.state bytes c
  Told bytes (pending, c) = Holds c.state bytes c
  Told bytes (panicked, c) = ⊥
  Told bytes (stuck, c) = ⊥

  abbrev Turn : List ℕ → ℕ → Option WriteResult × Closing R T → Type 0
  Turn bytes n (none, c) = Holds c.state bytes c × (turns c.state c < n)
  Turn bytes n (some r, c) = Told bytes (r, c)

  moved :
      (s : State) (c : Closing R T) (bytes : List ℕ) (n : ℕ)
      → c.state ≡ s
      → Holds s bytes c
      → turns s c < n
      → Turn bytes n (none, c)
  moved s c bytes n e p l =
      (subst (λ x. Holds x bytes c) (sym e) p, subst (λ x. turns x c < n) (sym e) l)

  -- The same frames are owed, over the same wire.
  kept :
      (s s' : State) (c d : Closing R T) (bytes : List ℕ)
      → owed s' d ≡ owed s c
      → d.socket ≡ c.socket
      → Holds s bytes c
      → Holds s' bytes d
  kept s s' c d bytes e k (b, f, a) = (
    ap (λ t. accepted t ++ wire_bytes (owed s' d)) k
        ∙ ap (λ l. accepted c.socket ++ wire_bytes l) e
        ∙ b,
    subst Fine (sym k) f,
    subst (All Fits) (sym e) a,
  )

  owed_same : (s : State) (c : Closing R T) (t : T) → owed s (record c { socket = t }) ≡ owed s c
  owed_same closing_stream_receiver c t = refl
  owed_same draining_stream_receiver c t = refl
  owed_same flushing_pending_frames c t = refl
  owed_same closing_socket c t = refl

  -- The wire has only changed its state.
  stays :
      (s : State) (c : Closing R T) (t : T) (bytes : List ℕ)
      → c.state ≡ s
      → accepted t ≡ accepted c.socket
      → Fine t
      → Holds s bytes c
      → Holds c.state bytes (record c { socket = t })
  stays s c t bytes e y f (b, g, a) =
      let d : Closing R T = record c { socket = t } in
      let o : owed s d ≡ owed s c = owed_same s c t in
      subst (λ x. Holds x bytes d) (sym e)
        (
          ap (λ l. accepted t ++ wire_bytes l) o ∙ ap (λ l. l ++ wire_bytes (owed s c)) y ∙ b,
          f,
          subst (All Fits) (sym o) a,
        )

  last : List Frame
  last = Frame.term ∷ []

  all_queued :
      (before : List Frame) {q q' : List Frame}
      → q ≡ q'
      → before ++ (q' ++ last) ≡ before ++ (q ++ last)
  all_queued before e = ap (λ l. before ++ (l ++ last)) (sym e)

  -- The state after an item, or after the last one.
  drain_Turn :
      (c : Closing R T) (bytes : List ℕ) (x : Next × R)
      → c.state ≡ draining_stream_receiver
      → Yields queued left c.stream_receivers x
      → Holds draining_stream_receiver bytes c
      → Turn bytes (turns draining_stream_receiver c) (none, drain c x)
  unfolding drain last
  drain_Turn c bytes (item id (some cmd), r) e y h =
      let f = command_frame id cmd in
      let d = drain c (item id (some cmd), r) in
      moved draining_stream_receiver d _ _ e
        (kept draining_stream_receiver draining_stream_receiver c d bytes
          (append_assoc c.pending_frames (f ∷ []) (queued r ++ last)
            ∙ all_queued c.pending_frames y.0)
          refl h)
        (omega (arith, y.1, length-append c.pending_frames (f ∷ [])))
  drain_Turn c bytes (item id none, r) e y h =
      let d = drain c (item id none, r) in
      moved draining_stream_receiver d _ _ e
        (kept draining_stream_receiver draining_stream_receiver c d bytes
          (all_queued c.pending_frames y.0) refl h)
        (omega (arith, y.1))
  drain_Turn c bytes (blocked, r) e y h = (
    kept draining_stream_receiver flushing_pending_frames c (drain c (blocked, r)) bytes
        (all_queued c.pending_frames y) refl h,
    omega (arith, length-append c.pending_frames last),
  )
  drain_Turn c bytes (ended, r) e y h = (
    kept draining_stream_receiver flushing_pending_frames c (drain c (ended, r)) bytes
        (all_queued c.pending_frames y) refl h,
    omega (arith, length-append c.pending_frames last),
  )

  -- The wire `t` is ready for the next frame.
  send_Turn :
      (fs : List Frame) (c : Closing R T) (bytes : List ℕ)
      → c.state ≡ flushing_pending_frames
      → c.pending_frames ≡ fs
      → accepted c.socket ++ wire_bytes fs ≡ bytes
      → Fine c.socket
      → All Fits fs
      → ((f : Frame)
          → Fits f
          → (accepted (wire.start_send f c.socket) ≡ accepted c.socket ++ bytes_of f)
            × Fine (wire.start_send f c.socket))
      → Turn bytes (length fs + 2) (none, send_next wire fs c)
  unfolding send_next wire_bytes
  send_Turn [] c bytes e p b g a k = ((b, g, tt), omega arith)
  send_Turn (f ∷ fs) c bytes e p b g a k =
      let (s, g') = k f a.0 in
      moved flushing_pending_frames (send_next wire (f ∷ fs) c) _ _ e
        (
          ap (λ l. l ++ wire_bytes fs) s
              ∙ append_assoc (accepted c.socket) (bytes_of f) (wire_bytes fs)
              ∙ b,
          g',
          a.1,
        )
        (omega arith)

  flush_Turn :
      (c : Closing R T) (bytes : List ℕ) (x : WriteResult × T)
      → c.state ≡ flushing_pending_frames
      → Holds flushing_pending_frames bytes c
      → Readies wire accepted taken Fine Fits c.socket x
      → Turn bytes (length c.pending_frames + 2) (flush wire c x)
  unfolding flush
  flush_Turn c bytes (ready (ok u), t) e h (y, g, k) =
      send_Turn c.pending_frames (record c { socket = t }) bytes e refl
        (ap (λ l. l ++ wire_bytes c.pending_frames) y ∙ h.0) g h.2 k
  flush_Turn c bytes (ready (err x), t) e h k = stays flushing_pending_frames c t bytes e k.0 k.1 h
  flush_Turn c bytes (pending, t) e h k = stays flushing_pending_frames c t bytes e k.0 k.1 h
  flush_Turn c bytes (panicked, t) e h k = k
  flush_Turn c bytes (stuck, t) e h k = k

  close_Turn :
      (c : Closing R T) (bytes : List ℕ) (x : WriteResult × T)
      → c.state ≡ closing_socket
      → Holds closing_socket bytes c
      → Closes wire accepted taken Fine Fits c.socket x
      → Turn bytes 1 (close c x)
  unfolding close wire_bytes
  close_Turn c bytes (ready (ok u), t) e h k = k ∙ sym (append-nil (accepted c.socket)) ∙ h.0
  close_Turn c bytes (ready (err x), t) e h k = stays closing_socket c t bytes e k.0 k.1 h
  close_Turn c bytes (pending, t) e h k = stays closing_socket c t bytes e k.0 k.1 h
  close_Turn c bytes (panicked, t) e h k = k
  close_Turn c bytes (stuck, t) e h k = k

  turn_Turn :
      (s : State) (c : Closing R T) (bytes : List ℕ)
      → c.state ≡ s
      → Holds s bytes c
      → Turn bytes (turns s c) (turn recv wire s c)
  unfolding turn last
  turn_Turn closing_stream_receiver c bytes e h = (
    kept closing_stream_receiver draining_stream_receiver c
        (record c {
          stream_receivers = recv.close_all c.stream_receivers;
          state = draining_stream_receiver;
        })
        bytes (all_queued c.pending_frames (sym (from.close_queued c.stream_receivers))) refl h,
    omega (arith, from.close_left c.stream_receivers),
  )
  turn_Turn draining_stream_receiver c bytes e h =
      drain_Turn c bytes (recv.poll_next c.stream_receivers) e (from.yields c.stream_receivers) h
  turn_Turn flushing_pending_frames c bytes e h =
      flush_Turn c bytes (wire.poll_ready c.socket) e h (to.readies c.socket h.1)
  turn_Turn closing_socket c bytes e h =
      close_Turn c bytes (wire.poll_close c.socket) e h (to.closes c.socket h.1)

  run :
      (n m : ℕ) (bytes : List ℕ) (x : Option WriteResult × Closing R T)
      → Turn bytes m x
      → m ≤ n
      → ((c : Closing R T)
          → Holds c.state bytes c
          → turns c.state c < n
          → Told bytes (poll recv wire n c))
      → Told bytes (go_on (poll recv wire n) x)
  run n m bytes (some r, c) h l k = h
  run n m bytes (none, c) h l k = k c h.0 (omega (arith, h.1))

  poll_Told :
      (fuel : ℕ) (bytes : List ℕ) (c : Closing R T)
      → Holds c.state bytes c
      → turns c.state c < fuel
      → Told bytes (poll recv wire fuel c)
  unfolding poll
  poll_Told zero bytes c h l = absurd (omega (arith, l))
  poll_Told (suc n) bytes c h l =
      run n (turns c.state c) bytes (turn recv wire c.state c) (turn_Turn c.state c bytes refl h)
        (omega arith) (poll_Told n bytes)

  -- A closing connection, over receivers that deliver their commands in order and a wire that sends
  -- in order, is in a state to do so and takes each of the frames to come, ends its loop without a panic, with fuel for
  -- more turns than twice the items to come, the pending frames and 5. Where it answers that it is
  -- closed, the bytes that have left the wire are those that it had accepted before, then the
  -- encodings of the pending frames, of the frames of the queued commands in order, and of the
  -- termination, and nothing else. Where it is pending or fails, those bytes are what is accepted and
  -- what is owed.
  pub closes_in_order :
      (fuel : ℕ) (receivers : R) (frames : List Frame) (socket : T)
      → Fine socket
      → All Fits (frames ++ (queued receivers ++ (Frame.term ∷ [])))
      → 2 * left receivers + length frames + 5 < fuel
      → Told
          (accepted socket ++ wire_bytes (frames ++ (queued receivers ++ (Frame.term ∷ []))))
          (poll recv wire fuel (new receivers frames socket))
  unfolding new
  closes_in_order fuel receivers frames socket f a l =
      poll_Told fuel
        (accepted socket ++ wire_bytes (frames ++ (queued receivers ++ (Frame.term ∷ []))))
        (new receivers frames socket) (refl, f, a) l
