-- ===== src/Frame/Io/Reference.antt =====
-- frame/io.rs: a plain parser of bytes, as a reference for `poll_next`.
pub mod Agrees
use rust_yamux.Common.{
  ◌==◌, ℕ, Result, List, ◌<◌, length, Option, ◌≡◌, ◌++◌, err, ready, [], arith, ok, ◌≤◌, some,
  if◌then◌else◌, ltb, none, ◌∷◌, ◌∙◌, inl, pending, take, ap, drop, subst, take-append_exact,
  drop-append_exact, ◌+◌, length-append, inr, ◌≢◌, sym, stuck, ◌-◌, append-nil, length-take, suc,
  All, panicked, refl, zero,
}
use rust_yamux.Error.{io_error, header_error, frame_too_large, unexpected_eof}
use rust_yamux.Frame.{Frame}
use rust_yamux.Frame.Header.{Header, HeaderDecodeError, data_tag, encode, decode, header_size}
use rust_yamux.Frame.Header.RoundTrip
use rust_yamux.Config.{mib}
use rust_yamux.Frame.Io.{
  Answer, blocked, failed, done, Socket, Io, ReadState, read_init, read_header, read_body,
  ReadResult, eof, read_answer, header_read, read_turn, go_on, poll_next,
}
use rust_yamux.Frame.Io.Delivery.{Gives, GivesInOrder, Fits, seen, Conserves, Parsed, InRange, Turn}
use rust_yamux.Frame.Io.Reading.{turns, next_terminates}
use rust_yamux.Frame.Io.Parsing.{parses, turn_Turn}

-- What follows the header of a data frame.
unfoldable pub parse_body : Header → List ℕ → ReadResult × List ℕ
parse_body h bytes = if ltb (length bytes) h.length then (eof, []) else (
  ready (some (ok (record { header = h; body = take h.length bytes }))),
  drop h.length bytes,
)

unfoldable pub parse_rest : Result HeaderDecodeError Header → List ℕ → ReadResult × List ℕ
unfolding parse_body
parse_rest (err e) bytes = (ready (some (err (header_error e))), bytes)
parse_rest (ok h) bytes = elim h.tag [
  | data_tag ↦
      if ltb mib h.length
      then (ready (some (err (frame_too_large h.length))), bytes)
      else parse_body h bytes
  | _ ↦ (ready (some (ok (record { header = h; body = [] }))), bytes)
]

-- A frame off the front of a finite input, with the bytes that are left.
unfoldable pub parse : List ℕ → ReadResult × List ℕ
unfolding parse_rest
parse [] = (ready none, [])
parse (b ∷ bs) =
    if ltb (length (b ∷ bs)) header_size
    then (eof, [])
    else parse_rest (decode (take header_size (b ∷ bs))) (drop header_size (b ∷ bs))

-- A socket that neither blocks nor fails when it is asked for bytes.
abbrev pub Answers : {T : Type 0} → Answer (List ℕ) × T → Type 0
Answers (done _, t) = Unit {0}
Answers (_, t) = ⊥

pub record AnswersAtOnce {T : Type 0} (sock : Socket T) : Type 0 where
  pub answers : (n : ℕ) (t : T) → 0 < n → Answers (sock.read n t)

parse_short : (bytes : List ℕ) → 0 < length bytes → length bytes < 12 → parse bytes ≡ (eof, [])
unfolding parse
parse_short [] p l = absurd (omega (arith, p))
parse_short (b ∷ bs) p l = ground (arith, l)

parse_long :
    (front rest : List ℕ)
    → length front ≡ 12
    → parse (front ++ rest) ≡ parse_rest (decode front) rest
unfolding parse
parse_long [] rest n = absurd (omega (arith, n))
parse_long (b ∷ bs) rest n =
    let t : take 12 ((b ∷ bs) ++ rest) ≡ b ∷ bs =
      subst (λ k. take k ((b ∷ bs) ++ rest) ≡ b ∷ bs) n (take-append_exact (b ∷ bs) rest) in
    let d : drop 12 ((b ∷ bs) ++ rest) ≡ rest =
      subst (λ k. drop k ((b ∷ bs) ++ rest) ≡ rest) n (drop-append_exact (b ∷ bs) rest) in
    let l : length ((b ∷ bs) ++ rest) ≡ 12 + length rest =
      length-append (b ∷ bs) rest ∙ ap (λ k. k + length rest) n in
    ground (arith, t, d, l)

parse-encode :
    (h : Header) (bytes : List ℕ)
    → RoundTrip.IsValid h
    → parse (encode h ++ bytes) ≡ parse_rest (ok h) bytes
parse-encode h bytes v =
    parse_long (encode h) bytes (RoundTrip.length-encode h)
    ∙ ap (λ d. parse_rest d bytes) (RoundTrip.decode-encode h v).0

pub parse_frame :
    (h : Header) (body rest : List ℕ)
    → Fits h body
    → parse (encode h ++ (body ++ rest))
      ≡ (ready (some (ok (record { header = h; body = body }))), rest)
unfolding parse_rest
parse_frame h body rest (v, inl (t, n, m)) =
    let taken : take h.length (body ++ rest) ≡ body =
      subst (λ k. take k (body ++ rest) ≡ body) n (take-append_exact body rest) in
    let dropped : drop h.length (body ++ rest) ≡ rest =
      subst (λ k. drop k (body ++ rest) ≡ rest) n (drop-append_exact body rest) in
    let l : length (body ++ rest) ≡ h.length + length rest =
      length-append body rest ∙ ap (λ k. k + length rest) n in
    parse-encode h (body ++ rest) v ∙ ground (arith, t, m, taken, dropped, l)
parse_frame h body rest (v, inr (t, e)) = parse-encode h (body ++ rest) v ∙ ground (arith, t, e)

parse_cut :
    (h : Header) (bytes : List ℕ)
    → RoundTrip.IsValid h
    → h.tag ≡ data_tag
    → h.length ≤ mib
    → length bytes < h.length
    → parse (encode h ++ bytes) ≡ (eof, [])
unfolding parse_rest
parse_cut h bytes v t m l = parse-encode h bytes v ∙ ground (arith, t, m, l)

-- The current frame is not complete.
abbrev pub IsCut : ReadState → Type 0
IsCut read_init = ⊥
IsCut (read_header o buf) = (0 < o) × (o < 12)
IsCut (read_body h o buf) = o < h.length

abbrev pub HasHeader : ReadState → Type 0
HasHeader (read_header o buf) = o ≡ 12
HasHeader _ = ⊥

pub cut_at :
    (r : ReadState) (bytes : List ℕ)
    → InRange r
    → IsCut r
    → seen r ++ [] ≡ bytes
    → parse bytes ≡ (eof, [])
unfolding seen
cut_at read_init bytes i c e = absurd c
cut_at (read_header o buf) bytes i c e =
    let n : length bytes ≡ o =
      omega (arith, ap length (sym (append-nil (take o buf)) ∙ e), length-take o buf, i.1, c.1) in
    parse_short bytes (omega (arith, n, c.0)) (omega (arith, n, c.1))
cut_at (read_body h o buf) bytes (v, t, l, b, m) c e =
    sym (ap parse (sym (append-nil (encode h ++ take o buf)) ∙ e))
    ∙ parse_cut h (take o buf) v t m (omega (arith, length-take o buf, c, b))

pub refused_at :
    (r : ReadState) (bytes rest : List ℕ)
    → InRange r
    → HasHeader r
    → seen r ++ rest ≡ bytes
    → parse bytes ≡ parse_rest (decode (take 12 bytes)) rest
unfolding seen
refused_at read_init bytes rest i c e = absurd c
refused_at (read_body h o buf) bytes rest i c e = absurd c
refused_at (read_header o buf) bytes rest i c e =
    let front = take o buf in
    let n : length front ≡ 12 = omega (arith, length-take o buf, i.1, c) in
    let t : take 12 (front ++ rest) ≡ front =
      subst (λ k. take k (front ++ rest) ≡ front) n (take-append_exact front rest) in
    subst (λ b. parse b ≡ parse_rest (decode (take 12 b)) rest) e
      (parse_long front rest n ∙ ap (λ x. parse_rest (decode x) rest) (sym t))

pub too_large_at :
    (h : Header) (n : ℕ) (rest : List ℕ)
    → h.tag ≡ data_tag
    → h.length ≡ n
    → mib < n
    → parse_rest (ok h) rest ≡ (ready (some (err (frame_too_large n))), rest)
unfolding parse_rest
too_large_at h n rest t e l = ground (arith, t, e, l)
