-- ===== src/Config.antt =====
-- lib.rs: the constants and the configuration of a connection. A setter answers `none` where it
-- panics in a debug build: by its assertion, or by an overflow of the product that it compares with.
pub mod Laws
use rust_yamux.Common.{
  ℕ, ◌*◌, Bool, true, Option, none, some, leb, if◌then◌else◌, ◌>>=◌, ◌>>◌, assert,
}
use rust_yamux.Common.Words.{usize_max, checked_mul_usize}

abbrev pub kib : ℕ
kib = 1024

abbrev pub mib : ℕ
mib = kib * 1024

abbrev pub gib : ℕ
gib = mib * 1024

abbrev pub default_credit : ℕ
default_credit = 256 * kib

abbrev pub max_ack_backlog : ℕ
max_ack_backlog = 256

abbrev pub default_split_send_size : ℕ
default_split_send_size = 16 * kib

pub record Config : Type 0 where
  pub max_connection_receive_window : Option ℕ
  pub max_num_streams : ℕ
  pub read_after_close : Bool
  pub split_send_size : ℕ

abbrev pub default : Config
default = record {
  max_connection_receive_window = some gib;
  max_num_streams = 512;
  read_after_close = true;
  split_send_size = default_split_send_size;
}

-- `self.max_connection_receive_window.unwrap_or(usize::MAX)`.
abbrev pub window_limit : Config → ℕ
window_limit c = elim c.max_connection_receive_window [ none ↦ usize_max | some n ↦ n ]

-- The assertion of the two setters below, which return the configuration.
check_window : Config → Option Config
check_window c = do
  least ← checked_mul_usize c.max_num_streams default_credit
  assert (leb least (window_limit c))
  some c

pub set_max_connection_receive_window : Config → Option ℕ → Option Config
unfolding check_window
set_max_connection_receive_window c n =
    check_window (record c { max_connection_receive_window = n })

pub set_max_num_streams : Config → ℕ → Option Config
unfolding check_window
set_max_num_streams c n = check_window (record c { max_num_streams = n })

pub set_read_after_close : Config → Bool → Config
set_read_after_close c b = record c { read_after_close = b }

pub set_split_send_size : Config → ℕ → Config
set_split_send_size c n = record c { split_send_size = n }
