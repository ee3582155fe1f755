-- ===== src/Frame/Io.antt =====
-- frame/io.rs: `Io`, a socket with a frame that is being written and a frame that is being read. Both
-- loops are recursion on fuel, over a function that is one turn of the loop and says `none` where
-- the loop goes on. The task that a socket registers for a wake-up is the socket's own affair, so the
-- context is left out.
pub mod Writing
pub mod Order
pub mod Reading
pub mod Delivery
pub mod Parsing
pub mod Reference
pub mod RoundTrip
use rust_yamux.Common.{
  ℕ, zero, suc, ◌+◌, ◌-◌, ◌==◌, Bool, true, false, not, Option, none, some, List, [], ◌∷◌, ◌++◌,
  leb, ltb, if◌then◌else◌, length, take, drop, replicate, Result, ok, err, Poll, ready, pending,
  panicked, stuck,
}
use rust_yamux.Common.Words.{checked_add_usize}
use rust_yamux.Config.{mib}
use rust_yamux.Error.{
  FrameDecodeError, io_error, header_error, frame_too_large, write_zero, unexpected_eof,
  other_error,
}
use rust_yamux.Frame.{Frame, new}
use rust_yamux.Frame.Header.{
  Header, HeaderDecodeError, Tag, data_tag, window_update_tag, ping_tag, go_away_tag, encode,
  decode, header_size,
}

abbrev pub max_frame_body_len : ℕ
max_frame_body_len = mib

-- What an operation of the socket answers: `Pending`, an error, or a value.
pub data Answer (A : Type 0) : Type 0 where
  blocked : Answer A
  failed : ℕ → Answer A
  done : A → Answer A

-- `AsyncRead + AsyncWrite`. A write answers how many bytes it took; a read is asked for at most a
-- number of bytes and answers the bytes, none at the end of the input.
pub record Socket (T : Type 0) : Type 0 where
  pub write : List ℕ → T → Answer ℕ × T
  pub read : ℕ → T → Answer (List ℕ) × T
  pub flush : T → Answer (Unit {0}) × T
  pub close : T → Answer (Unit {0}) × T

pub data WriteState : Type 0 where
  write_init : WriteState
  write_header : List ℕ → List ℕ → ℕ → WriteState
  write_body : List ℕ → ℕ → WriteState
  poisoned : WriteState

pub data ReadState : Type 0 where
  read_init : ReadState
  read_header : ℕ → List ℕ → ReadState
  read_body : Header → ℕ → List ℕ → ReadState

pub record Io (T : Type 0) : Type 0 where
  pub io : T
  pub read_state : ReadState
  pub write_state : WriteState

abbrev pub WriteResult : Type 0
WriteResult = Poll (Result ℕ (Unit {0}))

abbrev pub ReadResult : Type 0
ReadResult = Poll (Option (Result FrameDecodeError Frame))

-- The state once a header or a body has been written.
unfoldable pub after_header : List ℕ → WriteState
after_header [] = write_init
after_header (b ∷ bs) = write_body (b ∷ bs) 0

-- `*offset += n` and the tests after it, for the header or the body: `buf` is what is being written,
-- `resume` is the state at an offset, `finish` the state after the last byte.
unfoldable pub written :
    {T : Type 0} → List ℕ → ℕ → ℕ → (ℕ → WriteState) → WriteState → Io T → Option WriteResult × Io T
written buf offset n resume finish s =
    if n == 0 then (some (ready (err write_zero)), s) else elim (checked_add_usize offset n) [
      | none ↦ (some panicked, s)
      | some o ↦
          if ltb (length buf) o
          then (some (ready (err other_error)), record s { write_state = poisoned })
          else if o == length buf
          then (none, record s { write_state = finish })
          else (none, record s { write_state = resume o })
    ]

-- `poll_write(cx, &buf[offset..])` and what is made of its answer.
unfoldable pub write_answer :
    {T : Type 0}
    → List ℕ
    → ℕ
    → (ℕ → WriteState)
    → WriteState
    → Io T
    → Answer ℕ × T
    → Option WriteResult × Io T
unfolding written
write_answer buf offset resume finish s (blocked, t) = (some pending, record s { io = t })
write_answer buf offset resume finish s (failed e, t) = (some (ready (err e)), record s { io = t })
write_answer buf offset resume finish s (done n, t) =
    written buf offset n resume finish (record s { io = t })

-- One turn of the loop of `poll_ready`. A slice that starts behind its end panics.
unfoldable pub write_turn : {T : Type 0} → Socket T → WriteState → Io T → Option WriteResult × Io T
unfolding write_answer after_header
write_turn sock write_init s = (some (ready (ok tt)), s)
write_turn sock (write_header header buffer offset) s =
    if ltb (length header) offset
    then (some panicked, s)
    else write_answer header offset (write_header header buffer) (after_header buffer) s
        (sock.write (drop offset header) s.io)
write_turn sock (write_body buffer offset) s =
    if ltb (length buffer) offset
    then (some panicked, s)
    else write_answer buffer offset (write_body buffer) write_init s
        (sock.write (drop offset buffer) s.io)
write_turn sock poisoned s = (some (ready (err other_error)), s)

-- The loop goes on where the turn says nothing.
abbrev pub go_on : {A S : Type 0} → (S → A × S) → Option A × S → A × S
go_on k (some r, s) = (r, s)
go_on k (none, s) = k s

unfoldable pub poll_ready : {T : Type 0} → Socket T → ℕ → Io T → WriteResult × Io T
unfolding write_turn
poll_ready sock zero s = (stuck, s)
poll_ready sock (suc n) s = go_on (poll_ready sock n) (write_turn sock s.write_state s)

unfoldable pub start_send : {T : Type 0} → Frame → Io T → Io T
start_send f s = record s { write_state = write_header (encode f.header) f.body 0 }

-- The answer of `poll_flush` or `poll_close` of the socket.
unfoldable pub socket_answer : {T : Type 0} → Io T → Answer (Unit {0}) × T → WriteResult × Io T
socket_answer s (blocked, t) = (pending, record s { io = t })
socket_answer s (failed e, t) = (ready (err e), record s { io = t })
socket_answer s (done _, t) = (ready (ok tt), record s { io = t })

-- `ready!(this.poll_ready_unpin(cx))?` and then the operation of the socket.
unfoldable pub when_written :
    {T : Type 0} → (T → Answer (Unit {0}) × T) → WriteResult × Io T → WriteResult × Io T
unfolding socket_answer
when_written op (ready (ok _), s) = socket_answer s (op s.io)
when_written op (ready (err e), s) = (ready (err e), s)
when_written op (pending, s) = (pending, s)
when_written op (panicked, s) = (panicked, s)
when_written op (stuck, s) = (stuck, s)

unfoldable pub poll_flush : {T : Type 0} → Socket T → ℕ → Io T → WriteResult × Io T
unfolding poll_ready when_written
poll_flush sock fuel s = when_written sock.flush (poll_ready sock fuel s)

unfoldable pub poll_close : {T : Type 0} → Socket T → ℕ → Io T → WriteResult × Io T
unfolding poll_ready when_written
poll_close sock fuel s = when_written sock.close (poll_ready sock fuel s)

-- A read writes into a buffer from an offset on.
unfoldable pub fill : List ℕ → ℕ → List ℕ → List ℕ
fill buffer offset bs = take offset buffer ++ (bs ++ drop (offset + length bs) buffer)

-- What is made of the answer to `poll_read`: `at_end` is the result at the end of the input.
unfoldable pub read_answer :
    {T : Type 0}
    → (ℕ → List ℕ → ReadState)
    → List ℕ
    → ℕ
    → ReadResult
    → Io T
    → Answer (List ℕ) × T
    → Option ReadResult × Io T
unfolding fill
read_answer resume buffer offset at_end s (blocked, t) = (some pending, record s { io = t })
read_answer resume buffer offset at_end s (failed e, t) =
    (some (ready (some (err (io_error e)))), record s { io = t })
read_answer resume buffer offset at_end s (done [], t) = (some at_end, record s { io = t })
read_answer resume buffer offset at_end s (done (b ∷ bs), t) = (
  none,
  record s { io = t; read_state = resume (offset + length (b ∷ bs)) (fill buffer offset (b ∷ bs)) },
)

-- `ReadState::Header`, once all bytes of the header are there.
unfoldable pub header_read :
    {T : Type 0} → Result HeaderDecodeError Header → Io T → Option ReadResult × Io T
unfolding new
header_read (err e) s = (some (ready (some (err (header_error e)))), s)
header_read (ok h) s = elim h.tag [
  | data_tag ↦
      if ltb max_frame_body_len h.length
      then (some (ready (some (err (frame_too_large h.length)))), s)
      else (none, record s { read_state = read_body h 0 (replicate h.length 0) })
  | _ ↦ (some (ready (some (ok (new h)))), record s { read_state = read_init })
]

abbrev pub eof : ReadResult
eof = ready (some (err (io_error unexpected_eof)))

-- One turn of the loop of `poll_next`.
unfoldable pub read_turn : {T : Type 0} → Socket T → ReadState → Io T → Option ReadResult × Io T
unfolding read_answer header_read
read_turn sock read_init s =
    (none, record s { read_state = read_header 0 (replicate header_size 0) })
read_turn sock (read_header offset buffer) s =
    if offset == header_size
    then header_read (decode buffer) s
    else if ltb header_size offset
    then (some panicked, s)
    else read_answer read_header buffer offset (if offset == 0 then ready none else eof) s
        (sock.read (header_size - offset) s.io)
read_turn sock (read_body h offset buffer) s =
    if offset == h.length
    then (
      some (ready (some (ok (record { header = h; body = buffer })))),
      record s { read_state = read_init },
    )
    else if ltb h.length offset
    then (some panicked, s)
    else read_answer (read_body h) buffer offset eof s (sock.read (h.length - offset) s.io)

unfoldable pub poll_next : {T : Type 0} → Socket T → ℕ → Io T → ReadResult × Io T
unfolding read_turn
poll_next sock zero s = (stuck, s)
poll_next sock (suc n) s = go_on (poll_next sock n) (read_turn sock s.read_state s)
