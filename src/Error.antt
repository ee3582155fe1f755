-- ===== src/Error.antt =====
-- error.rs: the errors of a connection. An I/O error is a number that stands for its kind.
use rust_yamux.Common.{ℕ}
use rust_yamux.Frame.Header.{HeaderDecodeError}

pub data FrameDecodeError : Type 0 where
  io_error : ℕ → FrameDecodeError
  header_error : HeaderDecodeError → FrameDecodeError
  frame_too_large : ℕ → FrameDecodeError

pub data ConnectionError : Type 0 where
  io : ℕ → ConnectionError
  decode : FrameDecodeError → ConnectionError
  no_more_stream_ids closed too_many_streams invalid_window_update : ConnectionError

-- The kinds of `io::Error` that the code makes itself; an error of the socket may be any number.
abbrev pub write_zero : ℕ
write_zero = 1

abbrev pub unexpected_eof : ℕ
unexpected_eof = 2

abbrev pub other_error : ℕ
other_error = 3
