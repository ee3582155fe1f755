-- ===== src/Frame/Io/Reference/Agrees.antt =====
-- frame/io.rs: `poll_next` on a socket that answers at once returns what the reference parser does.
use rust_yamux.Common.{
  ◌==◌, ℕ, Result, List, ◌<◌, Option, ◌≡◌, ◌++◌, err, ready, [], arith, ok, some, if◌then◌else◌,
  none, ◌∷◌, ◌∙◌, pending, ap, subst, ◌+◌, ◌≢◌, sym, stuck, ◌-◌, suc, All, panicked, refl, zero,
}
use rust_yamux.Error.{io_error, header_error, frame_too_large, unexpected_eof}
use rust_yamux.Frame.Header.{Header, HeaderDecodeError, decode}
use rust_yamux.Config.{mib}
use rust_yamux.Frame.Io.{
  Answer, blocked, failed, done, Socket, Io, ReadState, read_init, read_header, read_body,
  ReadResult, eof, read_answer, header_read, read_turn, go_on, poll_next,
}
use rust_yamux.Frame.Io.Delivery.{Gives, GivesInOrder, seen, Conserves, Parsed, InRange, Turn}
use rust_yamux.Frame.Io.Reading.{turns, next_terminates}
use rust_yamux.Frame.Io.Parsing.{parses, turn_Turn}
use rust_yamux.Frame.Io.Reference.{
  parse, parse_rest, Answers, AnswersAtOnce, IsCut, HasHeader, cut_at, refused_at, too_large_at,
  parse_frame,
}

module _ {T : Type 0} (coming : T → List ℕ) where
  -- Where `poll_next` stops on such a socket: in the middle of a frame only at the end of the input.
  abbrev Stopped : ReadResult × Io T → Type 0
  Stopped (pending, s) = ⊥
  Stopped (ready (some (err (io_error e))), s) =
      (e ≡ unexpected_eof) × (coming s.io ≡ []) × IsCut s.read_state
  Stopped (ready (some (err _)), s) = HasHeader s.read_state
  Stopped _ = Unit {0}

  abbrev TurnStopped : Option ReadResult × Io T → Type 0
  TurnStopped (none, s) = Unit {0}
  TurnStopped (some r, s) = Stopped (r, s)

  answer_Stopped :
      (resume : ℕ → List ℕ → ReadState) (buf : List ℕ) (o n : ℕ) (at_end : ReadResult) (s : Io T)
      (a : Answer (List ℕ) × T)
      → ((t : T) → coming t ≡ [] → Stopped (at_end, record s { io = t }))
      → Gives coming n s.io a
      → Answers a
      → TurnStopped (read_answer resume buf o at_end s a)
  unfolding read_answer
  answer_Stopped resume buf o n at_end s (blocked, t) k g p = absurd p
  answer_Stopped resume buf o n at_end s (failed x, t) k g p = absurd p
  answer_Stopped resume buf o n at_end s (done [], t) k g p = k t g.1
  answer_Stopped resume buf o n at_end s (done (b ∷ bs), t) k g p = tt

  header_Stopped :
      (d : Result HeaderDecodeError Header) (s : Io T)
      → HasHeader s.read_state
      → TurnStopped (header_read d s)
  unfolding header_read
  header_Stopped (err e) s h = h
  header_Stopped (ok x) s h = ground (arith, h)

  header_end_Stopped :
      (o : ℕ) (buf : List ℕ) (s : Io T) (t : T)
      → s.read_state ≡ read_header o buf
      → o < 12
      → coming t ≡ []
      → Stopped (if o == 0 then ready none else eof, record s { io = t })
  header_end_Stopped zero buf s t w l e = tt
  header_end_Stopped (suc o) buf s t w l e =
      let c : IsCut s.read_state = subst IsCut (sym w) (omega arith, l) in ground (arith, e, c)

  agrees_at :
      (bytes : List ℕ) (r : ReadResult) (s : Io T)
      → Parsed coming bytes (r, s)
      → Stopped (r, s)
      → r ≢ stuck
      → (r, coming s.io) ≡ parse bytes
  unfolding parse parse_rest
  agrees_at bytes (ready none) s (e, c) q n =
      subst (λ b. (ready none, coming s.io) ≡ parse b) (sym e) (ap (λ x. (ready none, x)) c)
  agrees_at bytes (ready (some (ok f))) s (e, w, v) q n =
      sym (parse_frame f.header f.body (coming s.io) v) ∙ ap parse e
  agrees_at bytes (ready (some (err (io_error x)))) s (e, i) (u, c, k) n =
      subst (λ y. (ready (some (err (io_error y))), coming s.io) ≡ parse bytes) (sym u)
        (ap (λ y. (eof, y)) c
          ∙ sym (cut_at s.read_state bytes i k (ap (◌++◌ (seen s.read_state)) (sym c) ∙ e)))
  agrees_at bytes (ready (some (err (header_error x)))) s ((e, i), d) q n =
      sym
        (refused_at s.read_state bytes (coming s.io) i q e ∙ ap (λ y. parse_rest y (coming s.io)) d)
  agrees_at bytes (ready (some (err (frame_too_large x)))) s ((e, i), h, d, t, l, m) q n = sym (
      refused_at s.read_state bytes (coming s.io) i q e
      ∙ ap (λ y. parse_rest y (coming s.io)) d
      ∙ too_large_at h x (coming s.io) t l m)
  agrees_at bytes pending s p q n = absurd q
  agrees_at bytes stuck s p q n = absurd (n refl)
  agrees_at bytes panicked s p q n = absurd p

module _ {T : Type 0} (sock : Socket T) (coming : T → List ℕ) (law : GivesInOrder sock coming)
    (at_once : AnswersAtOnce sock) where
  turn_Stopped :
      (r : ReadState) (s : Io T)
      → s.read_state ≡ r
      → InRange r
      → TurnStopped coming (read_turn sock r s)
  unfolding read_turn
  turn_Stopped read_init s w i = tt
  turn_Stopped (read_header o buf) s w i = ground (
    arith,
    (λ (e : o ≡ 12). header_Stopped coming (decode buf) s (subst HasHeader (sym w) e)),
    (λ (l : o < 12).
        answer_Stopped coming read_header buf o (12 - o) (if o == 0 then ready none else eof) s
          (sock.read (12 - o) s.io) (λ t e. header_end_Stopped coming o buf s t w l e)
          (law.gives (12 - o) s.io (omega (arith, l)))
          (at_once.answers (12 - o) s.io (omega (arith, l)))),
  )
  turn_Stopped (read_body h o buf) s w i = ground (
    arith,
    (λ (l : o < h.length).
        answer_Stopped coming (read_body h) buf o (h.length - o) eof s
          (sock.read (h.length - o) s.io) (λ t e. (refl, e, subst IsCut (sym w) l))
          (law.gives (h.length - o) s.io (omega (arith, l)))
          (at_once.answers (h.length - o) s.io (omega (arith, l)))),
  )

  loop_Stopped :
      (n : ℕ) (bytes : List ℕ) (x : Option ReadResult × Io T)
      → Turn coming bytes x
      → TurnStopped coming x
      → ((s : Io T) → Conserves coming bytes s → Stopped coming (poll_next sock n s))
      → Stopped coming (go_on (poll_next sock n) x)
  loop_Stopped n bytes (some r, s) t h k = h
  loop_Stopped n bytes (none, s) t h k = k s t

  stops :
      (fuel : ℕ) (bytes : List ℕ) (s : Io T)
      → All (λ b. b < 256) bytes
      → Conserves coming bytes s
      → Stopped coming (poll_next sock fuel s)
  unfolding poll_next
  stops zero bytes s b c = tt
  stops (suc n) bytes s b c =
      loop_Stopped n bytes (read_turn sock s.read_state s)
        (subst (λ l. Turn coming l (read_turn sock s.read_state s)) c.0
          (turn_Turn sock coming law s.read_state s refl c.1
            (subst (All (λ b. b < 256)) (sym c.0) b)))
        (turn_Stopped s.read_state s refl c.1) (λ t. stops n bytes t b)

  -- On a socket that delivers bytes in order and neither blocks nor fails, `poll_next` between two
  -- frames, with fuel for more than a megabyte and 15 turns, returns what the reference parser makes
  -- of the bytes to come, and leaves the bytes that it leaves: a frame, the end, an input that is cut
  -- short, or a header that is refused. How the socket splits the bytes makes no difference.
  pub parses_bytes :
      (fuel : ℕ) (s : Io T)
      → s.read_state ≡ read_init
      → All (λ b. b < 256) (coming s.io)
      → mib + 15 < fuel
      → ((poll_next sock fuel s).0, coming (poll_next sock fuel s).1.io) ≡ parse (coming s.io)
  unfolding seen
  parses_bytes fuel s e b l =
      let c : Conserves coming (coming s.io) s =
        (ap (λ r. seen r ++ coming s.io) e, subst InRange (sym e) tt) in
      let run = poll_next sock fuel s in
      agrees_at coming (coming s.io) run.0 run.1 (parses sock coming law fuel (coming s.io) s b c)
        (stops fuel (coming s.io) s b c)
        (next_terminates sock fuel s (omega (arith, l, ap turns e)))
