-- ===== src/Frame/Io/Delivery.antt =====
-- frame/io.rs: what a socket that delivers bytes in order makes of one turn of `poll_next`.
use rust_yamux.Common.{
  append_assoc, append-nil, take-append_exact, length-append, length-take, length-drop,
  length-replicate, All, ℕ, ◌+◌, ◌-◌, ◌≡◌, ◌≢◌, ◌≤◌, ◌<◌, sym, ap, subst, ◌∙◌, arith, Option, none,
  some, List, [], ◌∷◌, ◌++◌, length, take, drop, Result, ok, err, ready, pending, panicked, stuck,
  ◌⊎◌,
}
use rust_yamux.Config.{mib}
use rust_yamux.Error.{io_error, header_error, frame_too_large}
use rust_yamux.Frame.{new}
use rust_yamux.Frame.Header.{Header, HeaderDecodeError, data_tag, encode, decode}
use rust_yamux.Frame.Header.RoundTrip
use rust_yamux.Frame.Io.{
  Answer, blocked, failed, done, Socket, Io, ReadState, read_init, read_header, read_body,
  ReadResult, fill, read_answer, header_read,
}

-- `AsyncRead`: asked for a byte or more, a socket answers a prefix of the bytes to come, of at most
-- that length, and none only at the end of the input. `coming` are the bytes to come.
abbrev pub Gives : {T : Type 0} → (T → List ℕ) → ℕ → T → Answer (List ℕ) × T → Type 0
Gives coming n t (blocked, t') = coming t' ≡ coming t
Gives coming n t (failed e, t') = coming t' ≡ coming t
Gives coming n t (done [], t') = (coming t ≡ []) × (coming t' ≡ [])
Gives coming n t (done (b ∷ bs), t') = (length (b ∷ bs) ≤ n) × (coming t ≡ (b ∷ bs) ++ coming t')

pub record GivesInOrder {T : Type 0} (sock : Socket T) (coming : T → List ℕ) : Type 0 where
  pub gives : (n : ℕ) (t : T) → 0 < n → Gives coming n t (sock.read n t)

-- The bytes of the current frame that have been read.
unfoldable pub seen : ReadState → List ℕ
seen read_init = []
seen (read_header o buf) = take o buf
seen (read_body h o buf) = encode h ++ take o buf

-- A frame that the code can send and read: only data frames have a body, and `length` counts it.
abbrev pub Fits : Header → List ℕ → Type 0
Fits h body =
    RoundTrip.IsValid h
    × (((h.tag ≡ data_tag) × (length body ≡ h.length) × (h.length ≤ mib))
        ⊎ ((h.tag ≢ data_tag) × (body ≡ [])))

abbrev pub InRange : ReadState → Type 0
InRange read_init = Unit {0}
InRange (read_header o buf) = (o ≤ 12) × (length buf ≡ 12)
InRange (read_body h o buf) =
    RoundTrip.IsValid h
    × (h.tag ≡ data_tag)
    × (o ≤ h.length)
    × (length buf ≡ h.length)
    × (h.length ≤ mib)

module _ (buf bs : List ℕ) (o : ℕ) (l : o + length bs ≤ length buf) where
  take-fill : take (o + length bs) (fill buf o bs) ≡ take o buf ++ bs
  unfolding fill
  take-fill =
      let n : length (take o buf ++ bs) ≡ o + length bs =
        omega (arith, length-append (take o buf) bs, length-take o buf) in
      ap (take (o + length bs)) (sym (append_assoc (take o buf) bs (drop (o + length bs) buf)))
      ∙ subst (λ k. take k ((take o buf ++ bs) ++ drop (o + length bs) buf) ≡ take o buf ++ bs) n
          (take-append_exact (take o buf ++ bs) (drop (o + length bs) buf))

  length-fill : length (fill buf o bs) ≡ length buf
  unfolding fill
  length-fill = omega (
    arith,
    length-append (take o buf) (bs ++ drop (o + length bs) buf),
    length-append bs (drop (o + length bs) buf),
    length-take o buf,
    length-drop (o + length bs) buf,
  )

module _ {T : Type 0} (coming : T → List ℕ) where
  -- `bytes` are what has been read of the frame and what is to come.
  abbrev pub Conserves : List ℕ → Io T → Type 0
  Conserves bytes s = (seen s.read_state ++ coming s.io ≡ bytes) × InRange s.read_state

  -- What a result says of the bytes: a frame is what they start with, and the others are still to
  -- come; the end is reached only between frames; an error about a header is about the first 12
  -- bytes; nothing panics.
  abbrev pub Parsed : List ℕ → ReadResult × Io T → Type 0
  Parsed bytes (ready none, s) = (bytes ≡ []) × (coming s.io ≡ [])
  Parsed bytes (ready (some (ok f)), s) =
      (encode f.header ++ (f.body ++ coming s.io) ≡ bytes)
      × (s.read_state ≡ read_init)
      × Fits f.header f.body
  Parsed bytes (ready (some (err (io_error _))), s) = Conserves bytes s
  Parsed bytes (ready (some (err (header_error e))), s) =
      Conserves bytes s × (decode (take 12 bytes) ≡ err e)
  Parsed bytes (ready (some (err (frame_too_large n))), s) =
      Conserves bytes s
      × (h : Header) × (decode (take 12 bytes) ≡ ok h)
      × (h.tag ≡ data_tag)
      × (h.length ≡ n)
      × (mib < n)
  Parsed bytes (pending, s) = Conserves bytes s
  Parsed bytes (stuck, s) = Conserves bytes s
  Parsed bytes (panicked, s) = ⊥

  abbrev pub Turn : List ℕ → Option ReadResult × Io T → Type 0
  Turn bytes (none, s) = Conserves bytes s
  Turn bytes (some r, s) = Parsed bytes (r, s)

  module _ (buf : List ℕ) (s : Io T) (n : length buf ≡ 12) where
    first : decode (take 12 (buf ++ coming s.io)) ≡ decode buf
    first =
        ap decode
          (subst (λ k. take k (buf ++ coming s.io) ≡ buf) n (take-append_exact buf (coming s.io)))

    pub header_Turn :
        (d : Result HeaderDecodeError Header)
        → decode buf ≡ d
        → All (λ b. b < 256) buf
        → Conserves (buf ++ coming s.io) s
        → Turn (buf ++ coming s.io) (header_read d s)
    unfolding header_read new seen
    header_Turn (err e) p b c = (c, first ∙ p)
    header_Turn (ok h) p b c =
        let v : (encode h ≡ buf) × RoundTrip.IsValid h = RoundTrip.encode-decode buf n b p in
        let whole : encode h ++ coming s.io ≡ buf ++ coming s.io = ap (λ l. l ++ coming s.io) v.0 in
        let start : (encode h ++ []) ++ coming s.io ≡ buf ++ coming s.io =
          ap (λ l. l ++ coming s.io) (append-nil (encode h)) ∙ whole in
        let q : decode (take 12 (buf ++ coming s.io)) ≡ ok h = first ∙ p in
        ground (arith, c, v, whole, start, q, length-replicate {A = ℕ} h.length 0)

  module _ (resume : ℕ → List ℕ → ReadState) (front : List ℕ) (size : ℕ)
      (at : (o : ℕ) (b : List ℕ) → seen (resume o b) ≡ front ++ take o b)
      (fine : (o : ℕ) (b : List ℕ) → o ≤ size → length b ≡ size → InRange (resume o b)) where
    pub answer_Turn :
        (o : ℕ) (buf : List ℕ) (at_end : ReadResult) (s : Io T) (a : Answer (List ℕ) × T)
        → length buf ≡ size
        → o < size
        → s.read_state ≡ resume o buf
        → (coming s.io ≡ []
            → (t : T) → coming t ≡ []
            → Turn (seen (resume o buf) ++ coming s.io) (some at_end, record s { io = t }))
        → Gives coming (size - o) s.io a
        → Turn (seen (resume o buf) ++ coming s.io) (read_answer resume buf o at_end s a)
    unfolding read_answer
    answer_Turn o buf at_end s (blocked, t) n l w e g = (
      rw w (ap (◌++◌ (seen (resume o buf))) g),
      subst InRange (sym w) (fine o buf (omega arith) n),
    )
    answer_Turn o buf at_end s (failed x, t) n l w e g = (
      rw w (ap (◌++◌ (seen (resume o buf))) g),
      subst InRange (sym w) (fine o buf (omega arith) n),
    )
    answer_Turn o buf at_end s (done [], t) n l w e g = e g.0 t g.1
    answer_Turn o buf at_end s (done (b ∷ bs), t) n l w e g =
        let m : o + length (b ∷ bs) ≤ length buf = omega (arith, g.0, n) in
        let new_buf = fill buf o (b ∷ bs) in
        (
          ap (λ l. l ++ coming t)
                (at (o + length (b ∷ bs)) new_buf
                  ∙ ap (◌++◌ front) (take-fill buf (b ∷ bs) o m)
                  ∙ sym (append_assoc front (take o buf) (b ∷ bs))
                  ∙ ap (λ l. l ++ (b ∷ bs)) (sym (at o buf)))
              ∙ append_assoc (seen (resume o buf)) (b ∷ bs) (coming t)
              ∙ ap (◌++◌ (seen (resume o buf))) (sym g.1),
          fine (o + length (b ∷ bs)) new_buf (omega (arith, m, n))
              (length-fill buf (b ∷ bs) o m ∙ n),
        )
