-- ===== src/Frame.antt =====
-- frame.rs: a frame is a header and a body. The type parameter of `Frame<T>` is a phantom that only
-- says which methods may be called, so it is left out, and the casts between such types with it.
pub mod Header
pub mod Io
use rust_yamux.Common.{
  ℕ, ◌≡◌, Bool, true, false, Option, none, some, List, [], ◌∷◌, leb, length, if◌then◌else◌, ◌%◌,
  ◌^◌,
}
use rust_yamux.Common.Words.{u32_max}

pub record Frame : Type 0 where
  pub header : Header.Header
  pub body : List ℕ

unfoldable pub new : Header.Header → Frame
new h = record { header = h; body = [] }

-- `Frame::data`: `none` is the `TryFromIntError` of a body whose length is no `u32`.
unfoldable pub data_frame : ℕ → List ℕ → Option Frame
unfolding Header.data_header
data_frame id b =
    if leb (length b) u32_max
    then some (record { header = Header.data_header id (length b); body = b })
    else none

unfoldable pub close_stream : ℕ → Bool → Frame
unfolding new Header.data_header Header.fin Header.ack
close_stream id ack =
    let header = Header.fin (Header.data_header id 0) in
    new (if ack then Header.ack header else header)

-- `self.body().len() as u32`.
unfoldable pub body_len : Frame → ℕ
body_len f = length f.body % 2 ^ 32

unfoldable pub window_update : ℕ → ℕ → Frame
unfolding Header.window_update_header
window_update id credit = record { header = Header.window_update_header id credit; body = [] }

unfoldable pub ping : ℕ → Frame
unfolding Header.ping_header Header.syn
ping id = record { header = Header.syn (Header.ping_header id); body = [] }

unfoldable pub term : Frame
unfolding Header.go_away Header.term
term = record { header = Header.term; body = [] }

unfoldable pub protocol_error : Frame
unfolding Header.go_away Header.protocol_error
protocol_error = record { header = Header.protocol_error; body = [] }

unfoldable pub internal_error : Frame
unfolding Header.go_away Header.internal_error
internal_error = record { header = Header.internal_error; body = [] }
