-- ===== src/Tests/Frames.antt =====
-- frame.rs and its modules, on a socket that is a list of bytes.
use rust_yamux.Common.{
  ℕ, zero, suc, ◌+◌, ◌≡◌, ◌≢◌, ◌<◌, refl, sym, ap, arith, All, List, [], ◌∷◌, ◌++◌, length, take,
  drop, take_all, take-append-drop, length-take, inl, ok, stuck, ready, some,
}
use rust_yamux.Config.{mib}
use rust_yamux.Frame.{Frame}
use rust_yamux.Frame.Header
use rust_yamux.Frame.Header.{data_header, encode, decode, header_size}
use rust_yamux.Frame.Header.RoundTrip
use rust_yamux.Frame.Header.RoundTrip.{decode-encode, encode-decode}
use rust_yamux.Frame.Io.{
  Socket, Io, done, read_init, write_init, poll_next, poll_ready, start_send, eof,
}
use rust_yamux.Frame.Io.Delivery
use rust_yamux.Frame.Io.Delivery.{Gives, GivesInOrder, Fits, Parsed}
use rust_yamux.Frame.Io.Order.{TakesInOrder, Progress, sends_in_order}
use rust_yamux.Frame.Io.Parsing.{parses}
use rust_yamux.Frame.Io.Reference.{AnswersAtOnce, parse}
use rust_yamux.Frame.Io.Reference.Agrees.{parses_bytes}
use rust_yamux.Frame.Io.Reading.{next_terminates}
use rust_yamux.Frame.Io.RoundTrip.{Receives, reads_back}
use rust_yamux.Frame.Io.Writing
use rust_yamux.Frame.Io.Writing.{ready_terminates}

-- A socket that takes all it is offered and gives all it is asked for.
abbrev pub pipe : Socket (List ℕ)
pipe = record {
  write = λ buf t. (done (length buf), t ++ buf);
  read = λ n t. (done (take n t), drop n t);
  flush = λ t. (done tt, t);
  close = λ t. (done tt, t);
}

abbrev pub whole : List ℕ → List ℕ
whole t = t

pub pipe-TakesInOrder : TakesInOrder pipe whole
pipe-TakesInOrder = record {
  takes = λ buf t. (omega arith, ap (◌++◌ t) (sym (take_all (length buf) buf (omega arith))));
}

pipe-Gives : (n : ℕ) (t : List ℕ) → 0 < n → Gives whole n t (done (take n t), drop n t)
pipe-Gives zero t l = absurd (omega arith)
pipe-Gives (suc n) [] l = (refl, refl)
pipe-Gives (suc n) (x ∷ t) l =
    (omega (arith, length-take n t), sym (take-append-drop (suc n) (x ∷ t)))

pipe-GivesInOrder : GivesInOrder pipe whole
pipe-GivesInOrder = record { gives = pipe-Gives }

abbrev hello : Frame
hello = record { header = data_header 1 3; body = 7 ∷ 8 ∷ 9 ∷ [] }

hello-IsValid : RoundTrip.IsValid hello.header
unfolding data_header
hello-IsValid = record {
  spoken = refl;
  flags_u16 = omega arith;
  stream_id_u32 = omega arith;
  length_u32 = omega arith;
}

hello-Fits : Fits hello.header hello.body
unfolding data_header
hello-Fits = (hello-IsValid, inl (refl, refl, omega arith))

abbrev wire_bytes : List ℕ
wire_bytes = encode hello.header ++ (hello.body ++ (0 ∷ 2 ∷ []))

wire_bytes-All : All (λ b. b < 256) wire_bytes
unfolding encode data_header
wire_bytes-All = ground arith

abbrev pub fresh : List ℕ → Io (List ℕ)
fresh t = record { io = t; read_state = read_init; write_state = write_init }

reads_back_example :
    Receives whole hello (0 ∷ 2 ∷ []) (poll_next pipe (mib + 16) (fresh wire_bytes))
    × ((poll_next pipe (mib + 16) (fresh wire_bytes)).0 ≢ stuck)
reads_back_example =
    reads_back pipe whole pipe-GivesInOrder (mib + 16) hello (0 ∷ 2 ∷ []) (fresh wire_bytes)
      hello-Fits wire_bytes-All refl refl (omega arith)

parses_example : Parsed whole wire_bytes (poll_next pipe 30 (fresh wire_bytes))
parses_example =
    parses pipe whole pipe-GivesInOrder 30 wire_bytes (fresh wire_bytes) wire_bytes-All
      (unfold Delivery.seen in (refl, tt))

pipe-AnswersAtOnce : AnswersAtOnce pipe
pipe-AnswersAtOnce = record { answers = λ n t l. tt }

parses_bytes_example :
    (
      (poll_next pipe (mib + 16) (fresh wire_bytes)).0,
      (poll_next pipe (mib + 16) (fresh wire_bytes)).1.io,
    )
    ≡ parse wire_bytes
parses_bytes_example =
    parses_bytes pipe whole pipe-GivesInOrder pipe-AnswersAtOnce (mib + 16) (fresh wire_bytes) refl
      wire_bytes-All (omega arith)

-- The parser on the wire: the frame, then the two bytes that are left, which are no whole header.
hello_parsed : parse wire_bytes ≡ (ready (some (ok hello)), 0 ∷ 2 ∷ [])
unfolding parse encode data_header decode
hello_parsed = refl

left_parsed : parse (0 ∷ 2 ∷ []) ≡ (eof, [])
unfolding parse
left_parsed = refl

next_terminates_example : (poll_next pipe (mib + 16) (fresh wire_bytes)).0 ≢ stuck
next_terminates_example = next_terminates pipe (mib + 16) (fresh wire_bytes) (omega arith)

sends_in_order_example :
    Progress whole
      ((5 ∷ []) ++ (encode hello.header ++ hello.body))
      (poll_ready pipe 20 (start_send hello (fresh (5 ∷ []))))
sends_in_order_example =
    sends_in_order pipe whole pipe-TakesInOrder 20 hello (fresh (5 ∷ [])) (omega arith)

ready_terminates_example : (poll_ready pipe 20 (start_send hello (fresh []))).0 ≢ stuck
ready_terminates_example =
    ready_terminates pipe 20 (start_send hello (fresh []))
      (unfold start_send Writing.owed encode data_header in omega arith)

decode-encode_example :
    (decode (encode hello.header) ≡ ok hello.header)
    × (length (encode hello.header) ≡ header_size)
    × All (λ b. b < 256) (encode hello.header)
decode-encode_example = decode-encode hello.header hello-IsValid

-- The bytes of a window update for stream 2 with a credit of 5.
abbrev twelve_bytes : List ℕ
twelve_bytes = 0 ∷ 1 ∷ 0 ∷ 0 ∷ 0 ∷ 0 ∷ 0 ∷ 2 ∷ 0 ∷ 0 ∷ 0 ∷ 5 ∷ []

encode-decode_example :
    (encode (Header.window_update_header 2 5) ≡ twelve_bytes)
    × RoundTrip.IsValid (Header.window_update_header 2 5)
encode-decode_example =
    encode-decode twelve_bytes refl (unfold decode in ground arith)
      (unfold decode Header.window_update_header in refl)
