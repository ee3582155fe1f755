-- ===== src/Connection/Closing/Sending.antt =====
-- connection/closing.rs, frame/io.rs: what a closing connection relies on of its socket, and that `Io`
-- provides it.
use rust_yamux.Common.{
  ℕ, zero, suc, ◌+◌, ◌≡◌, ◌≢◌, ◌≤◌, ◌<◌, refl, sym, ap, ◌∙◌, arith, append-nil, length, Option,
  none, some, List, [], ◌∷◌, ◌++◌, ok, err, ready, pending, panicked, stuck, length-append, drop,
  length-drop, subst,
}
use rust_yamux.Common.Words.{usize_max}
use rust_yamux.Frame.{Frame}
use rust_yamux.Frame.Header.{encode}
use rust_yamux.Frame.Header.RoundTrip.{length-encode}
use rust_yamux.Frame.Io.{
  Answer, blocked, failed, done, Socket, Io, WriteState, write_init, write_header, write_body,
  poisoned, WriteResult, after_header, written, write_answer, write_turn, go_on, poll_ready,
  start_send, poll_close, when_written, socket_answer,
}
use rust_yamux.Frame.Io.Writing.{owed, ready_terminates}
use rust_yamux.Frame.Io.Order.{TakesInOrder, InRange, Progress, ready_Progress}
use rust_yamux.Connection.Wires.{Wire, io_wire}

abbrev pub bytes_of : Frame → List ℕ
bytes_of f = encode f.header ++ f.body

unfoldable pub wire_bytes : List Frame → List ℕ
wire_bytes [] = []
wire_bytes (f ∷ fs) = bytes_of f ++ wire_bytes fs

-- `accepted` are the bytes that the wire has been given, `taken` those that have left it.
module _ {T : Type 0} (wire : Wire T) (accepted taken : T → List ℕ) (Fine : T → Type 0)
    (Fits : Frame → Type 0) where
  -- A wire that is ready accepts a frame that fits, after the bytes before.
  abbrev pub Readies : T → WriteResult × T → Type 0
  Readies t (ready (ok _), t') =
      (accepted t' ≡ accepted t)
      × Fine t'
      × ((f : Frame)
          → Fits f
          → (accepted (wire.start_send f t') ≡ accepted t' ++ bytes_of f)
            × Fine (wire.start_send f t'))
  Readies t (ready (err _), t') = (accepted t' ≡ accepted t) × Fine t'
  Readies t (pending, t') = (accepted t' ≡ accepted t) × Fine t'
  Readies t (panicked, t') = ⊥
  Readies t (stuck, t') = ⊥

  -- A wire that has been closed has let go of all that it accepted.
  abbrev pub Closes : T → WriteResult × T → Type 0
  Closes t (ready (ok _), t') = taken t' ≡ accepted t
  Closes t (ready (err _), t') = (accepted t' ≡ accepted t) × Fine t'
  Closes t (pending, t') = (accepted t' ≡ accepted t) × Fine t'
  Closes t (panicked, t') = ⊥
  Closes t (stuck, t') = ⊥

  pub record SendsInOrder : Type 0 where
    pub readies : (t : T) → Fine t → Readies t (wire.poll_ready t)
    pub closes : (t : T) → Fine t → Closes t (wire.poll_close t)

-- `AsyncWrite::poll_close` takes no bytes.
pub record ClosesOnly {T : Type 0} (sock : Socket T) (taken : T → List ℕ) : Type 0 where
  pub closing : (t : T) → taken (sock.close t).1 ≡ taken t

-- The bytes of the buffers of a frame that is being written.
abbrev pub size : WriteState → ℕ
size write_init = 0
size (write_header h b o) = length h + length b
size (write_body b o) = length b
size poisoned = 0

abbrev pub given : {T : Type 0} → (T → List ℕ) → Io T → List ℕ
given taken s = taken s.io ++ owed s.write_state

abbrev pub gone : {T : Type 0} → (T → List ℕ) → Io T → List ℕ
gone taken s = taken s.io

-- The loops have fuel for what is being written.
abbrev pub IoFine : {T : Type 0} → ℕ → Io T → Type 0
IoFine fuel s = InRange s.write_state × (size s.write_state < fuel)

abbrev pub IoFits : ℕ → Frame → Type 0
IoFits fuel f = (length f.body ≤ usize_max) × (12 + length f.body < fuel)

length-owed : (w : WriteState) → length (owed w) ≤ size w
unfolding owed
length-owed write_init = omega arith
length-owed (write_header h b o) = omega (arith, length-append (drop o h) b, length-drop o h)
length-owed (write_body b o) = omega (arith, length-drop o b)
length-owed poisoned = omega arith

module _ {T : Type 0} (sock : Socket T) where
  after_header-size : (b : List ℕ) → size (after_header b) ≤ length b
  unfolding after_header
  after_header-size [] = omega arith
  after_header-size (x ∷ b) = omega arith

  turn-size :
      (w : WriteState) (s : Io T)
      → s.write_state ≡ w
      → size (write_turn sock w s).1.write_state ≤ size w
  unfolding write_turn write_answer written
  turn-size write_init s e = ground (arith, e)
  turn-size (write_header h b o) s e = ground (arith, e, after_header-size b)
  turn-size (write_body b o) s e = ground (arith, e)
  turn-size poisoned s e = ground (arith, e)

  ready-size :
      (fuel : ℕ) (s : Io T) → size (poll_ready sock fuel s).1.write_state ≤ size s.write_state
  unfolding poll_ready
  ready-size zero s = omega arith
  ready-size (suc n) s =
      run (write_turn sock s.write_state s) (turn-size s.write_state s refl) (ready-size n)
    where
      run :
          (x : Option WriteResult × Io T)
          → size x.1.write_state ≤ size s.write_state
          → ((t : Io T) → size (poll_ready sock n t).1.write_state ≤ size t.write_state)
          → size (go_on (poll_ready sock n) x).1.write_state ≤ size s.write_state
      run (some r, t) l k = l
      run (none, t) l k = omega (arith, l, k t)

module _ {T : Type 0} (sock : Socket T) (taken : T → List ℕ) (law : TakesInOrder sock taken)
    (only : ClosesOnly sock taken) (fuel : ℕ) where
  start-given :
      (f : Frame) (s : Io T)
      → s.write_state ≡ write_init
      → IoFits fuel f
      → (given taken (start_send f s) ≡ given taken s ++ bytes_of f) × IoFine fuel (start_send f s)
  unfolding start_send owed
  start-given f s e l =
      let n : owed s.write_state ≡ [] = ap owed e in
      (
        ap (λ x. x ++ bytes_of f) (sym (append-nil (taken s.io)) ∙ ap (◌++◌ (taken s.io)) (sym n)),
        (
          (omega arith, omega (arith, length-encode f.header), l.0),
          omega (arith, length-encode f.header, l.1),
        ),
      )

  -- What `poll_ready` comes to, from the bytes it keeps.
  io_Readies :
      (s : Io T) (x : WriteResult × Io T)
      → Progress taken (given taken s) x
      → x.0 ≢ stuck
      → size x.1.write_state < fuel
      → Readies (io_wire sock fuel) (given taken) (gone taken) (IoFine fuel) (IoFits fuel) s x
  unfolding owed
  io_Readies s (ready (ok u), t) (p, w) k l =
      let n : owed t.write_state ≡ [] = ap owed w in
      (
        ap (◌++◌ (taken t.io)) n ∙ append-nil (taken t.io) ∙ p,
        (subst InRange (sym w) tt, l),
        (λ f h. start-given f t w h),
      )
  io_Readies s (ready (err e), t) p k l = (p.0, (p.1, l))
  io_Readies s (pending, t) p k l = (p.0, (p.1, l))
  io_Readies s (panicked, t) p k l = p
  io_Readies s (stuck, t) p k l = k refl

  closed_answer :
      (s t : Io T) (a : Answer (Unit {0}) × T)
      → (taken t.io ≡ given taken s) × (t.write_state ≡ write_init)
      → size t.write_state < fuel
      → taken a.1 ≡ taken t.io
      → Closes
          (io_wire sock fuel)
          (given taken)
          (gone taken)
          (IoFine fuel)
          (IoFits fuel)
          s
          (socket_answer t a)
  unfolding socket_answer owed
  closed_answer s t (done u, x) (p, w) l e = e ∙ p
  closed_answer s t (blocked, x) (p, w) l e = (
    ap (◌++◌ (taken x)) (ap owed w) ∙ append-nil (taken x) ∙ e ∙ p,
    (subst InRange (sym w) tt, l),
  )
  closed_answer s t (failed y, x) (p, w) l e = (
    ap (◌++◌ (taken x)) (ap owed w) ∙ append-nil (taken x) ∙ e ∙ p,
    (subst InRange (sym w) tt, l),
  )

  io_Closes :
      (s : Io T) (x : WriteResult × Io T)
      → Progress taken (given taken s) x
      → x.0 ≢ stuck
      → size x.1.write_state < fuel
      → Closes
          (io_wire sock fuel)
          (given taken)
          (gone taken)
          (IoFine fuel)
          (IoFits fuel)
          s
          (when_written sock.close x)
  unfolding when_written
  io_Closes s (ready (ok u), t) p k l = closed_answer s t (sock.close t.io) p l (only.closing t.io)
  io_Closes s (ready (err e), t) p k l = (p.0, (p.1, l))
  io_Closes s (pending, t) p k l = (p.0, (p.1, l))
  io_Closes s (panicked, t) p k l = p
  io_Closes s (stuck, t) p k l = k refl

  -- `Io`, over a socket that takes prefixes in order, is a wire that sends in order, with fuel for
  -- the bytes of the frame that it writes.
  pub io_wire-SendsInOrder :
      SendsInOrder (io_wire sock fuel) (given taken) (gone taken) (IoFine fuel) (IoFits fuel)
  unfolding poll_close
  io_wire-SendsInOrder = record {
    readies = λ s h.
        io_Readies s (poll_ready sock fuel s)
          (ready_Progress sock taken law fuel (given taken s) s (refl, h.0)) (ends s h)
          (shrinks s h);
    closes = λ s h.
        io_Closes s (poll_ready sock fuel s)
          (ready_Progress sock taken law fuel (given taken s) s (refl, h.0)) (ends s h)
          (shrinks s h);
  }
    where
      ends : (s : Io T) → IoFine fuel s → (poll_ready sock fuel s).0 ≢ stuck
      ends s h = ready_terminates sock fuel s (omega (arith, length-owed s.write_state, h.1))

      shrinks : (s : Io T) → IoFine fuel s → size (poll_ready sock fuel s).1.write_state < fuel
      shrinks s h = omega (arith, ready-size sock fuel s, h.1)
