-- ===== src/Frame/Io/Parsing.antt =====
-- frame/io.rs: what `poll_next` returns are the frames whose encodings the socket delivers.
use rust_yamux.Frame.Io.Delivery.{
  GivesInOrder, seen, InRange, Conserves, Parsed, Turn, header_Turn, answer_Turn,
}
use rust_yamux.Common.{
  append_assoc, take_all, All, ℕ, zero, suc, ◌-◌, ◌==◌, ◌≡◌, ◌<◌, refl, sym, ap, subst, ◌∙◌, arith,
  Option, none, some, List, [], ◌++◌, if◌then◌else◌, take, ok, ready, All-append_left, inl,
}
use rust_yamux.Frame.Header.{Header, encode, decode}
use rust_yamux.Frame.Io.{
  Socket, Io, ReadState, read_init, read_header, read_body, ReadResult, eof, header_read, read_turn,
  go_on, poll_next,
}

module _ {T : Type 0} (sock : Socket T) (coming : T → List ℕ) (law : GivesInOrder sock coming) where
  -- What is made of the end of the input after `o` bytes of a header.
  abbrev header_end : ℕ → ReadResult
  header_end o = if o == 0 then ready none else eof

  header_end_Turn :
      (o : ℕ) (buf : List ℕ) (s : Io T) (t : T)
      → coming s.io ≡ []
      → coming t ≡ []
      → Conserves coming (take o buf ++ coming s.io) (record s { io = t })
      → Parsed coming (take o buf ++ coming s.io) (header_end o, record s { io = t })
  header_end_Turn zero buf s t e g c = (e, g)
  header_end_Turn (suc o) buf s t e g c = ground (arith, c)

  header_full :
      (o : ℕ) (buf : List ℕ) (s : Io T)
      → s.read_state ≡ read_header o buf
      → InRange (read_header o buf)
      → All (λ b. b < 256) (take o buf ++ coming s.io)
      → o ≡ 12
      → Turn coming (take o buf ++ coming s.io) (header_read (decode buf) s)
  unfolding seen
  header_full o buf s w r b q =
      let all : buf ≡ take o buf = sym (take_all o buf (omega (arith, q, r.1))) in
      subst (λ l. Turn coming (l ++ coming s.io) (header_read (decode buf) s)) all
        (header_Turn coming buf s r.1 (decode buf) refl
          (All-append_left (λ b. b < 256) buf (coming s.io)
            (subst (λ l. All (λ b. b < 256) (l ++ coming s.io)) (sym all) b))
          (ap (λ l. l ++ coming s.io) (ap seen w ∙ sym all), subst InRange (sym w) r))

  header_turn :
      (o : ℕ) (buf : List ℕ) (s : Io T)
      → s.read_state ≡ read_header o buf
      → InRange (read_header o buf)
      → All (λ b. b < 256) (take o buf ++ coming s.io)
      → Turn coming (take o buf ++ coming s.io) (read_turn sock (read_header o buf) s)
  unfolding read_turn seen
  header_turn o buf s w r b = ground (
    arith,
    header_full o buf s w r b,
    (λ (l : o < 12).
        answer_Turn coming read_header [] 12 (λ _ _. refl) (λ _ _ l n. (l, n)) o buf (header_end o)
          s (sock.read (12 - o) s.io) r.1 l w
          (λ e t g. header_end_Turn o buf s t e g (
            ap (λ x. seen x ++ coming t) w ∙ ap (◌++◌ (take o buf)) (g ∙ sym e),
            subst InRange (sym w) r,
          ))
          (law.gives (12 - o) s.io (omega (arith, l)))),
  )

  body_full :
      (h : Header) (o : ℕ) (buf : List ℕ) (s : Io T)
      → InRange (read_body h o buf)
      → o ≡ h.length
      → Parsed coming ((encode h ++ take o buf) ++ coming s.io) (
        ready (some (ok (record { header = h; body = buf }))),
        record s { read_state = read_init },
      )
  body_full h o buf s r q =
      let all : take o buf ≡ buf = take_all o buf (omega (arith, q, r.3)) in
      (
        sym (append_assoc (encode h) buf (coming s.io))
            ∙ ap (λ l. (encode h ++ l) ++ coming s.io) (sym all),
        refl,
        (r.0, inl (r.1, r.3, r.4)),
      )

  body_turn :
      (h : Header) (o : ℕ) (buf : List ℕ) (s : Io T)
      → s.read_state ≡ read_body h o buf
      → InRange (read_body h o buf)
      → Turn coming ((encode h ++ take o buf) ++ coming s.io) (read_turn sock (read_body h o buf) s)
  unfolding read_turn seen
  body_turn h o buf s w r = ground (
    arith,
    body_full h o buf s r,
    (λ (l : o < h.length).
        answer_Turn coming (read_body h) (encode h) h.length (λ _ _. refl)
          (λ _ _ l n. (r.0, r.1, l, n, r.4)) o buf eof s (sock.read (h.length - o) s.io) r.3 l w
          (λ e t g. (
            ap (λ x. seen x ++ coming t) w ∙ ap (◌++◌ (encode h ++ take o buf)) (g ∙ sym e),
            subst InRange (sym w) r,
          ))
          (law.gives (h.length - o) s.io (omega (arith, l)))),
  )

  pub turn_Turn :
      (r : ReadState) (s : Io T)
      → s.read_state ≡ r
      → InRange r
      → All (λ b. b < 256) (seen r ++ coming s.io)
      → Turn coming (seen r ++ coming s.io) (read_turn sock r s)
  unfolding read_turn seen
  turn_Turn read_init s w r b = (refl, (omega arith, refl))
  turn_Turn (read_header o buf) s w r b = header_turn o buf s w r b
  turn_Turn (read_body h o buf) s w r b = body_turn h o buf s w r

  run :
      (n : ℕ) (bytes : List ℕ) (x : Option ReadResult × Io T)
      → Turn coming bytes x
      → ((s : Io T) → Conserves coming bytes s → Parsed coming bytes (poll_next sock n s))
      → Parsed coming bytes (go_on (poll_next sock n) x)
  run n bytes (some r, s) h k = h
  run n bytes (none, s) h k = k s h

  -- On a socket that delivers bytes in order, where `bytes` are those read of the current frame and
  -- those to come: a frame that `poll_next` returns fits its header, its encoding is what `bytes`
  -- start with and all the rest is still to come; the end of the stream is reported only where
  -- `bytes` are none; an error of the header or of the length is what the first 12 bytes show; at an
  -- error or where the socket blocks nothing is lost; nothing panics.
  pub parses :
      (fuel : ℕ) (bytes : List ℕ) (s : Io T)
      → All (λ b. b < 256) bytes
      → Conserves coming bytes s
      → Parsed coming bytes (poll_next sock fuel s)
  unfolding poll_next
  parses zero bytes s b h = h
  parses (suc n) bytes s b h =
      run n bytes (read_turn sock s.read_state s)
        (subst (λ l. Turn coming l (read_turn sock s.read_state s)) h.0
          (turn_Turn s.read_state s refl h.1 (subst (All (λ b. b < 256)) (sym h.0) b)))
        (λ t. parses n bytes t b)
