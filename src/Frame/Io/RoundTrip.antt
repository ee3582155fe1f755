-- ===== src/Frame/Io/RoundTrip.antt =====
-- frame/io.rs: a frame that is written to a stream of bytes is the frame that is read from it.
use rust_yamux.Common.{
  ◌+◌, length-append, All, ℕ, ◌≡◌, ◌≢◌, ◌<◌, sym, ap, subst, ◌∙◌, arith, none, some, List, ◌++◌,
  length, take, drop, Result, ok, err, ready, pending, panicked, stuck, take-append_exact,
  drop-append_exact, inl, inr,
}
use rust_yamux.Error.{io_error, header_error, frame_too_large}
use rust_yamux.Frame.{Frame}
use rust_yamux.Frame.Header.{HeaderDecodeError, Header, encode, decode}
use rust_yamux.Frame.Header.RoundTrip
use rust_yamux.Frame.Io.{Socket, Io, ReadResult, read_init, poll_next}
use rust_yamux.Frame.Io.Delivery.{InRange, GivesInOrder, Fits, seen, Parsed}
use rust_yamux.Config.{mib}
use rust_yamux.Frame.Io.Reading.{turns, next_terminates}
use rust_yamux.Frame.Io.Parsing.{parses}

-- Two prefixes of equal length of the same list are the same.
same_prefix :
    {xs ys us vs : List ℕ} → length xs ≡ length ys → xs ++ us ≡ ys ++ vs → (xs ≡ ys) × (us ≡ vs)
same_prefix {xs} {ys} {us} {vs} n e = (
  sym (take-append_exact xs us)
      ∙ ap (take (length xs)) e
      ∙ subst (λ k. take k (ys ++ vs) ≡ ys) (sym n) (take-append_exact ys vs),
  sym (drop-append_exact xs us)
      ∙ ap (drop (length xs)) e
      ∙ subst (λ k. drop k (ys ++ vs) ≡ vs) (sym n) (drop-append_exact ys vs),
)

ok_eq : {g h : Header} → ◌≡◌ {A = Result HeaderDecodeError Header} (ok g) (ok h) → g ≡ h
ok_eq e = ground arith

same_header :
    {g h : Header} → RoundTrip.IsValid g → RoundTrip.IsValid h → encode g ≡ encode h → g ≡ h
same_header v w e =
    ok_eq (sym (RoundTrip.decode-encode _ v).0 ∙ ap decode e ∙ (RoundTrip.decode-encode _ w).0)

same_length : {h : Header} {xs ys : List ℕ} → Fits h xs → Fits h ys → length xs ≡ length ys
same_length (v, inl p) (w, inl q) = omega (arith, p.1, q.1)
same_length (v, inl p) (w, inr q) = absurd (q.0 p.0)
same_length (v, inr p) (w, inl q) = absurd (p.0 q.0)
same_length (v, inr p) (w, inr q) = ap length (p.1 ∙ sym q.1)

same_frame :
    (f g : Frame) {us vs : List ℕ}
    → Fits f.header f.body
    → Fits g.header g.body
    → encode f.header ++ (f.body ++ us) ≡ encode g.header ++ (g.body ++ vs)
    → (f ≡ g) × (us ≡ vs)
same_frame f g u v e =
    let n : length (encode f.header) ≡ length (encode g.header) =
      RoundTrip.length-encode f.header ∙ sym (RoundTrip.length-encode g.header) in
    let p = same_prefix n e in
    let h : f.header ≡ g.header = same_header u.0 v.0 p.0 in
    let l : length f.body ≡ length g.body = same_length u (subst (λ x. Fits x g.body) (sym h) v) in
    let q = same_prefix l p.1 in (ground (arith, h, q.0), q.1)

-- What may come of reading the bytes of `f`, followed by `rest`.
abbrev pub Receives : {T : Type 0} → (T → List ℕ) → Frame → List ℕ → ReadResult × Io T → Type 0
Receives coming f rest (ready (some (ok g)), s) =
    (g ≡ f) × (coming s.io ≡ rest) × (s.read_state ≡ read_init)
Receives coming f rest (ready (some (err (io_error _))), s) = Unit {0}
Receives coming f rest (ready (some (err (header_error _))), s) = ⊥
Receives coming f rest (ready (some (err (frame_too_large _))), s) = ⊥
Receives coming f rest (ready none, s) = ⊥
Receives coming f rest (pending, s) = Unit {0}
Receives coming f rest (stuck, s) = Unit {0}
Receives coming f rest (panicked, s) = ⊥

module _ {T : Type 0} (coming : T → List ℕ) (f : Frame) (rest : List ℕ)
    (fits : Fits f.header f.body) where
  bytes : List ℕ
  bytes = encode f.header ++ (f.body ++ rest)

  decoded : decode (take 12 bytes) ≡ ok f.header
  unfolding bytes
  decoded =
      ap decode (
        subst (λ k. take k (encode f.header ++ (f.body ++ rest)) ≡ encode f.header)
          (RoundTrip.length-encode f.header) (take-append_exact (encode f.header) (f.body ++ rest)))
      ∙ (RoundTrip.decode-encode f.header fits.0).0

  receive : (r : ReadResult) (s : Io T) → Parsed coming bytes (r, s) → Receives coming f rest (r, s)
  unfolding bytes
  receive (ready (some (ok g))) s (p, w, v) = let q = same_frame g f v fits p in (q.0, q.1, w)
  receive (ready (some (err (io_error _)))) s p = tt
  receive (ready (some (err (header_error x)))) s p = let d = decoded in ground (arith, p.1, d)
  receive (ready (some (err (frame_too_large n)))) s (c, h, p, t, l, m) =
      let e : f.header ≡ h = ok_eq (sym decoded ∙ p) in
      elim fits.1 [
        | inl q ↦ omega (arith, q.2, l, m, ap (λ (x : Header). x.length) e)
        | inr q ↦ q.0 (ap (λ (x : Header). x.tag) e ∙ t)
      ]
  receive (ready none) s p = omega (
    arith,
    ap length p.0,
    length-append (encode f.header) (f.body ++ rest),
    RoundTrip.length-encode f.header,
  )
  receive pending s p = tt
  receive stuck s p = tt
  receive panicked s p = p

-- Where the bytes to come are the encoding of a frame that fits its header, followed by others,
-- `poll_next` between two frames of a socket that delivers bytes in order, with fuel for more than a
-- megabyte and 15 turns, ends: it may block or fail with an
-- I/O error, but refuses neither the header nor the length, does not panic and does not report the
-- end; and a frame that it returns is the one that was encoded, with the others still to come.
pub reads_back :
    {T : Type 0} (sock : Socket T) (coming : T → List ℕ)
    → GivesInOrder sock coming
    → (fuel : ℕ) (f : Frame) (rest : List ℕ) (s : Io T) → Fits f.header f.body
    → All (λ b. b < 256) (encode f.header ++ (f.body ++ rest))
    → s.read_state ≡ read_init
    → coming s.io ≡ encode f.header ++ (f.body ++ rest)
    → mib + 15 < fuel
    → Receives coming f rest (poll_next sock fuel s) × ((poll_next sock fuel s).0 ≢ stuck)
unfolding bytes seen
reads_back sock coming law fuel f rest s fits b e c k =
    let start = poll_next sock fuel s in
    (
      receive coming f rest fits start.0 start.1 (
          parses sock coming law fuel (encode f.header ++ (f.body ++ rest)) s b
            (ap (λ r. seen r ++ coming s.io) e ∙ c, subst InRange (sym e) tt)),
      next_terminates sock fuel s (omega (arith, k, ap turns e)),
    )
