-- ===== src/Frame/Io/Reading.antt =====
-- frame/io.rs: the loop of `poll_next` ends.
use rust_yamux.Common.{
  ℕ, zero, suc, ◌+◌, ◌-◌, ◌==◌, ◌≢◌, ◌≤◌, ◌<◌, arith, Option, none, some, List, [], ◌∷◌,
  if◌then◌else◌, length, Result, ok, err, ready, stuck,
}
use rust_yamux.Config.{mib}
use rust_yamux.Frame.Header.{Header, HeaderDecodeError, decode}
use rust_yamux.Frame.Io.{
  Answer, blocked, failed, done, Socket, Io, ReadState, read_init, read_header, read_body,
  ReadResult, eof, fill, read_answer, header_read, read_turn, go_on, poll_next,
}

-- The turns that are left are at most this many.
abbrev pub turns : ReadState → ℕ
turns read_init = mib + 15
turns (read_header o buf) = (mib + 2) + (12 - o)
turns (read_body h o buf) = h.length - o

abbrev Fuelled : {T : Type 0} → ℕ → Option ReadResult × Io T → Type 0
Fuelled n (some r, s) = r ≢ stuck
Fuelled n (none, s) = turns s.read_state < n

module _ {T : Type 0} (sock : Socket T) where
  header_Fuelled :
      (d : Result HeaderDecodeError Header) (s : Io T) → Fuelled (mib + 2) (header_read d s)
  unfolding header_read
  header_Fuelled (err e) s = ground arith
  header_Fuelled (ok h) s = ground arith

  answer_Fuelled :
      (resume : ℕ → List ℕ → ReadState) (buf : List ℕ) (o m : ℕ) (at_end : ReadResult) (s : Io T)
      (a : Answer (List ℕ) × T)
      → at_end ≢ stuck
      → ((n : ℕ) (b : List ℕ) → turns (resume (o + suc n) b) < m)
      → Fuelled m (read_answer resume buf o at_end s a)
  unfolding read_answer
  answer_Fuelled resume buf o m at_end s (blocked, t) e k = ground arith
  answer_Fuelled resume buf o m at_end s (failed x, t) e k = ground arith
  answer_Fuelled resume buf o m at_end s (done [], t) e k = e
  answer_Fuelled resume buf o m at_end s (done (b ∷ bs), t) e k =
      k (length bs) (fill buf o (b ∷ bs))

  turn_Fuelled : (r : ReadState) (s : Io T) → Fuelled (turns r) (read_turn sock r s)
  unfolding read_turn
  turn_Fuelled read_init s = omega arith
  turn_Fuelled (read_header o buf) s =
      let start : ReadResult = if o == 0 then ready none else eof in
      let go_at : start ≢ stuck = ground arith in
      ground (
        arith,
        header_Fuelled (decode buf) s,
        (λ (l : o < 12).
            answer_Fuelled read_header buf o ((mib + 2) + (12 - o)) start s
              (sock.read (12 - o) s.io) go_at (λ n b. omega (arith, l))),
      )
  turn_Fuelled (read_body h o buf) s =
      let go_at : eof ≢ stuck = ground arith in
      ground (
        arith,
        (λ (l : o < h.length).
            answer_Fuelled (read_body h) buf o (h.length - o) eof s (sock.read (h.length - o) s.io)
              go_at (λ n b. omega (arith, l))),
      )

  run :
      (n m : ℕ) (x : Option ReadResult × Io T)
      → Fuelled m x
      → m ≤ n
      → ((s : Io T) → turns s.read_state < n → (poll_next sock n s).0 ≢ stuck)
      → (go_on (poll_next sock n) x).0 ≢ stuck
  run n m (some r, s) h l k = h
  run n m (none, s) h l k = k s (omega (arith, h))

  -- With more fuel than turns are left, at most a megabyte and 15 from the start of a frame,
  -- `poll_next` does not run out of it, whatever the socket answers.
  pub next_terminates :
      (fuel : ℕ) (s : Io T) → turns s.read_state < fuel → (poll_next sock fuel s).0 ≢ stuck
  unfolding poll_next
  next_terminates zero s l = absurd (omega (arith, l))
  next_terminates (suc n) s l =
      run n (turns s.read_state) (read_turn sock s.read_state s) (turn_Fuelled s.read_state s)
        (omega arith) (next_terminates n)
