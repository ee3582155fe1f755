-- ===== src/Frame/Io/Order.antt =====
-- frame/io.rs: the socket gets the bytes of a frame in order, each once.
use rust_yamux.Common.{
  drop_all, length-drop, take-append-drop, append_assoc, append-nil, drop-drop, ℕ, zero, suc, ◌+◌,
  ◌≡◌, ◌≤◌, refl, sym, ap, subst, ◌∙◌, arith, Option, none, some, List, [], ◌∷◌, ◌++◌, length, take,
  drop, ok, err, ready, pending, panicked, stuck,
}
use rust_yamux.Common.Words.{usize_max}
use rust_yamux.Frame.{Frame}
use rust_yamux.Frame.Header.{encode}
use rust_yamux.Frame.Header.RoundTrip.{length-encode}
use rust_yamux.Frame.Io.{
  Answer, blocked, failed, done, Socket, Io, WriteState, write_init, write_header, write_body,
  poisoned, WriteResult, after_header, written, write_answer, write_turn, go_on, poll_ready,
  start_send,
}
use rust_yamux.Frame.Io.Writing.{owed, owed-after_header}

-- `AsyncWrite`: a socket takes a prefix of what it is offered, and takes nothing where it answers no
-- number. `sent` is what it has taken.
abbrev pub Takes : {T : Type 0} → (T → List ℕ) → List ℕ → T → Answer ℕ × T → Type 0
Takes sent buf t (blocked, t') = sent t' ≡ sent t
Takes sent buf t (failed e, t') = sent t' ≡ sent t
Takes sent buf t (done n, t') = (n ≤ length buf) × (sent t' ≡ sent t ++ take n buf)

pub record TakesInOrder {T : Type 0} (sock : Socket T) (sent : T → List ℕ) : Type 0 where
  pub takes : (buf : List ℕ) (t : T) → Takes sent buf t (sock.write buf t)

-- The offset is within the bytes, whose number is a `usize`.
abbrev pub InRange : WriteState → Type 0
InRange write_init = Unit {0}
InRange (write_header h b o) = (o ≤ length h) × (length h ≤ usize_max) × (length b ≤ usize_max)
InRange (write_body b o) = (o ≤ length b) × (length b ≤ usize_max)
InRange poisoned = ⊥

module _ {T : Type 0} (sent : T → List ℕ) where
  -- `bytes` are what has been taken and what is still owed.
  abbrev pub Conserves : List ℕ → Io T → Type 0
  Conserves bytes s = (sent s.io ++ owed s.write_state ≡ bytes) × InRange s.write_state

  -- Success means that all has been taken; nothing is lost at an error, and nothing panics.
  abbrev pub Progress : List ℕ → WriteResult × Io T → Type 0
  Progress bytes (ready (ok _), s) = (sent s.io ≡ bytes) × (s.write_state ≡ write_init)
  Progress bytes (ready (err _), s) = Conserves bytes s
  Progress bytes (pending, s) = Conserves bytes s
  Progress bytes (stuck, s) = Conserves bytes s
  Progress bytes (panicked, s) = ⊥

  abbrev Turn : List ℕ → Option WriteResult × Io T → Type 0
  Turn bytes (none, s) = Conserves bytes s
  Turn bytes (some r, s) = Progress bytes (r, s)

  module _ (buf rest : List ℕ) (resume : ℕ → WriteState) (finish : WriteState)
      (at : (o : ℕ) → owed (resume o) ≡ drop o buf ++ rest) (end : owed finish ≡ rest)
      (fine : (o : ℕ) → o ≤ length buf → InRange (resume o)) (over : InRange finish)
      (short : length buf ≤ usize_max) where
    -- The bytes that are owed before and after `n` more have been taken.
    advanced :
        (o n : ℕ) (before : List ℕ)
        → (before ++ take n (drop o buf)) ++ (drop (o + n) buf ++ rest)
          ≡ before ++ (drop o buf ++ rest)
    advanced o n before =
        let d = drop o buf in
        append_assoc before (take n d) (drop (o + n) buf ++ rest)
        ∙ ap (◌++◌ before) (
            sym (append_assoc (take n d) (drop (o + n) buf) rest)
            ∙ ap (λ l. l ++ rest)
                (ap (◌++◌ (take n d)) (sym (drop-drop n o buf)) ∙ take-append-drop n d))

    conserved :
        (o n : ℕ) (before now : List ℕ) (w : WriteState)
        → now ≡ before ++ take n (drop o buf)
        → owed w ≡ drop (o + n) buf ++ rest
        → now ++ owed w ≡ before ++ (drop o buf ++ rest)
    conserved o n before now w e f =
        ap (λ l. l ++ owed w) e ∙ ap (◌++◌ (before ++ take n (drop o buf))) f ∙ advanced o n before

    unchanged :
        (o : ℕ) (s : Io T) (t : T)
        → s.write_state ≡ resume o
        → sent t ≡ sent s.io
        → sent t ++ owed s.write_state ≡ sent s.io ++ (drop o buf ++ rest)
    unchanged o s t w k =
        ap (λ l. l ++ owed s.write_state) k
        ∙ ap (λ x. sent s.io ++ owed x) w
        ∙ ap (◌++◌ (sent s.io)) (at o)

    owed-finish : (o n : ℕ) → o + n ≡ length buf → owed finish ≡ drop (o + n) buf ++ rest
    owed-finish o n e = end ∙ ap (λ l. l ++ rest) (sym (drop_all (o + n) buf (omega (arith, e))))

    owed_start : (o n : ℕ) → n ≡ 0 → owed (resume o) ≡ drop (o + n) buf ++ rest
    owed_start o n e = let p : o + n ≡ o = omega (arith, e) in rw p (at o)

    written_Turn :
        (o n : ℕ) (s : Io T) (before : List ℕ)
        → o ≤ length buf
        → n ≤ length (drop o buf)
        → sent s.io ≡ before ++ take n (drop o buf)
        → s.write_state ≡ resume o
        → Turn (before ++ (drop o buf ++ rest)) (written buf o n resume finish s)
    unfolding written
    written_Turn o n s before l m e w = ground (
      arith,
      length-drop o buf,
      conserved o n before (sent s.io) (resume (o + n)) e (at (o + n)),
      (λ (q : n ≡ 0). conserved o n before (sent s.io) (resume o) e (owed_start o n q)),
      (λ (q : o + n ≡ length buf). conserved o n before (sent s.io) finish e (owed-finish o n q)),
      fine o l,
      fine (o + n),
    )

    answer_Turn :
        (o : ℕ) (s : Io T) (a : Answer ℕ × T)
        → o ≤ length buf
        → s.write_state ≡ resume o
        → Takes sent (drop o buf) s.io a
        → Turn (sent s.io ++ (drop o buf ++ rest)) (write_answer buf o resume finish s a)
    unfolding write_answer
    answer_Turn o s (blocked, t) l w k = (unchanged o s t w k, subst InRange (sym w) (fine o l))
    answer_Turn o s (failed e, t) l w k = (unchanged o s t w k, subst InRange (sym w) (fine o l))
    answer_Turn o s (done n, t) l w k =
        written_Turn o n (record s { io = t }) (sent s.io) l k.0 k.1 w

module _ {T : Type 0} (sock : Socket T) (sent : T → List ℕ) (law : TakesInOrder sock sent) where
  after_header-InRange : (b : List ℕ) → length b ≤ usize_max → InRange (after_header b)
  unfolding after_header
  after_header-InRange [] l = tt
  after_header-InRange (x ∷ b) l = (omega arith, l)

  turn_Turn :
      (w : WriteState) (s : Io T)
      → s.write_state ≡ w
      → InRange w
      → Turn sent (sent s.io ++ owed w) (write_turn sock w s)
  unfolding write_turn owed
  turn_Turn write_init s e r = (sym (append-nil (sent s.io)), e)
  turn_Turn (write_header h b o) s e r = ground (
    arith,
    answer_Turn sent h b (write_header h b) (after_header b) (λ _. refl) (owed-after_header b)
        (λ o' l. (l, r.1, r.2)) (after_header-InRange b r.2) r.1 o s (sock.write (drop o h) s.io)
        r.0 e (law.takes (drop o h) s.io),
  )
  turn_Turn (write_body b o) s e r =
      let n : drop o b ++ [] ≡ drop o b = append-nil (drop o b) in
      ground (
        arith,
        subst
            (λ l.
              Turn sent (sent s.io ++ l)
                (write_answer b o (write_body b) write_init s (sock.write (drop o b) s.io)))
            n
            (answer_Turn sent b [] (write_body b) write_init (λ o. sym (append-nil (drop o b))) refl
              (λ o' l. (l, r.1)) tt r.1 o s (sock.write (drop o b) s.io) r.0 e
              (law.takes (drop o b) s.io)),
      )
  turn_Turn poisoned s e r = absurd r

  run :
      (n : ℕ) (bytes : List ℕ) (x : Option WriteResult × Io T)
      → Turn sent bytes x
      → ((s : Io T) → Conserves sent bytes s → Progress sent bytes (poll_ready sock n s))
      → Progress sent bytes (go_on (poll_ready sock n) x)
  run n bytes (some r, s) h k = h
  run n bytes (none, s) h k = k s h

  pub ready_Progress :
      (fuel : ℕ) (bytes : List ℕ) (s : Io T)
      → Conserves sent bytes s
      → Progress sent bytes (poll_ready sock fuel s)
  unfolding poll_ready
  ready_Progress zero bytes s h = h
  ready_Progress (suc n) bytes s h =
      run n bytes (write_turn sock s.write_state s)
        (subst (λ l. Turn sent l (write_turn sock s.write_state s)) h.0
          (turn_Turn s.write_state s refl h.1))
        (ready_Progress n bytes)

  -- `poll_ready` after `start_send` of a frame with a body of at most `usize::MAX` bytes, on a socket
  -- that takes prefixes in order: a success means that the socket has taken the header and the body,
  -- in order and once, after what it had before, and that nothing is left to write; where the result
  -- is an error or pending, what it has taken and what is still owed make up the same bytes; nothing
  -- panics.
  pub sends_in_order :
      (fuel : ℕ) (f : Frame) (s : Io T)
      → length f.body ≤ usize_max
      → Progress sent
          (sent s.io ++ (encode f.header ++ f.body))
          (poll_ready sock fuel (start_send f s))
  unfolding start_send owed
  sends_in_order fuel f s l =
      ready_Progress fuel (sent s.io ++ (encode f.header ++ f.body)) (start_send f s)
        (refl, (omega arith, omega (arith, length-encode f.header), l))
