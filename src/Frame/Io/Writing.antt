-- ===== src/Frame/Io/Writing.antt =====
-- frame/io.rs: the loop of `poll_ready` ends, and it hands the bytes of a frame to the socket in order.
use rust_yamux.Common.{
  length-append, length-drop, ℕ, zero, suc, ◌+◌, ◌-◌, ◌≡◌, ◌≢◌, ◌≤◌, ◌<◌, refl, sym, ap, ◌∙◌, arith,
  Option, none, some, List, [], ◌∷◌, ◌++◌, length, drop, stuck, append-nil,
}
use rust_yamux.Frame.Io.{
  Answer, blocked, failed, done, Socket, Io, WriteState, write_init, write_header, write_body,
  poisoned, WriteResult, after_header, written, write_answer, write_turn, go_on, poll_ready,
}

-- The bytes of the current frame that the socket has not taken.
unfoldable pub owed : WriteState → List ℕ
owed write_init = []
owed (write_header header buffer offset) = drop offset header ++ buffer
owed (write_body buffer offset) = drop offset buffer
owed poisoned = []

-- Enough fuel for what is left: each turn that does not end the loop hands over a byte or more.
abbrev pub Fuelled : {T : Type 0} → ℕ → Option WriteResult × Io T → Type 0
Fuelled n (some r, s) = r ≢ stuck
Fuelled n (none, s) = length (owed s.write_state) < n

pub owed-after_header : (bs : List ℕ) → owed (after_header bs) ≡ bs
unfolding owed after_header
owed-after_header [] = refl
owed-after_header (b ∷ bs) = refl

-- `resume` and `finish` are the states while `buf` and then `rest` are to be written, and after `buf`.
module _ (buf rest : List ℕ) (resume : ℕ → WriteState) (finish : WriteState)
    (at : (o : ℕ) → owed (resume o) ≡ drop o buf ++ rest) (end : owed finish ≡ rest) where
  length-owed : (o : ℕ) → length (owed (resume o)) ≡ (length buf - o) + length rest
  length-owed o =
      ap length (at o)
      ∙ length-append (drop o buf) rest
      ∙ ap (λ n. n + length rest) (length-drop o buf)

  written-Fuelled :
      {T : Type 0} (o n : ℕ) (s : Io T)
      → o ≤ length buf
      → Fuelled (length (owed (resume o))) (written buf o n resume finish s)
  unfolding written
  written-Fuelled o n s l =
      let e : length (owed finish) ≡ length rest = ap length end in
      ground (arith, length-owed o, length-owed (o + n), e)

  answer_Fuelled :
      {T : Type 0} (o : ℕ) (s : Io T) (a : Answer ℕ × T)
      → o ≤ length buf
      → Fuelled (length (owed (resume o))) (write_answer buf o resume finish s a)
  unfolding write_answer
  answer_Fuelled o s (blocked, t) l = ground arith
  answer_Fuelled o s (failed e, t) l = ground arith
  answer_Fuelled o s (done n, t) l = written-Fuelled o n (record s { io = t }) l

module _ {T : Type 0} (sock : Socket T) where
  turn_Fuelled : (w : WriteState) (s : Io T) → Fuelled (length (owed w)) (write_turn sock w s)
  unfolding write_turn owed
  turn_Fuelled write_init s = ground arith
  turn_Fuelled (write_header h b o) s = ground (
    arith,
    answer_Fuelled h b (write_header h b) (after_header b) (λ _. refl) (owed-after_header b) o s
        (sock.write (drop o h) s.io),
  )
  turn_Fuelled (write_body b o) s =
      let r : length (drop o b ++ []) ≡ length (drop o b) = ap length (append-nil (drop o b)) in
      ground (
        arith,
        answer_Fuelled b [] (write_body b) write_init (λ o. sym (append-nil (drop o b))) refl o s
            (sock.write (drop o b) s.io),
      )
  turn_Fuelled poisoned s = ground arith

  run :
      (n : ℕ) (x : Option WriteResult × Io T) (m : ℕ)
      → Fuelled m x
      → m ≤ n
      → ((s : Io T) → length (owed s.write_state) < n → (poll_ready sock n s).0 ≢ stuck)
      → (go_on (poll_ready sock n) x).0 ≢ stuck
  run n (some r, s) m h l k = h
  run n (none, s) m h l k = k s (omega (arith, h))

  -- With more fuel than bytes are left of the frame, `poll_ready` does not run out of it, whatever
  -- the socket answers.
  pub ready_terminates :
      (fuel : ℕ) (s : Io T)
      → length (owed s.write_state) < fuel
      → (poll_ready sock fuel s).0 ≢ stuck
  unfolding poll_ready
  ready_terminates zero s l = absurd (omega (arith, l))
  ready_terminates (suc n) s l =
      run n (write_turn sock s.write_state s) (length (owed s.write_state))
        (turn_Fuelled s.write_state s) (omega arith) (ready_terminates n)
