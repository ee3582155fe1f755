-- ===== src/Frame/Header.antt =====
-- frame/header.rs: the header of a frame, its flags, and the codec of its 12 bytes.
mod Bytes
pub mod Flags
pub mod RoundTrip
use rust_yamux.Common.{
  ℕ, ◌+◌, ◌%◌, ◌<◌, ◌≡◌, Bool, true, false, not, List, [], ◌∷◌, ◌++◌, ◌==◌, if◌then◌else◌, bit_and,
  bit_or, get_or, Result, ok, err, Option, none, some,
}
use Bytes.{u16_to_be_bytes, u32_to_be_bytes, u16_from_be_bytes, u32_from_be_bytes}

pub data Tag : Type 0 where
  data_tag window_update_tag ping_tag go_away_tag : Tag

pub record Header : Type 0 where
  pub version : ℕ
  pub tag : Tag
  pub flags : ℕ
  pub stream_id : ℕ
  pub length : ℕ

abbrev pub syn_flag : ℕ
syn_flag = 1

abbrev pub ack_flag : ℕ
ack_flag = 2

abbrev pub fin_flag : ℕ
fin_flag = 4

abbrev pub rst_flag : ℕ
rst_flag = 8

-- `Flags::contains`.
unfoldable pub contains : ℕ → ℕ → Bool
contains flags other = bit_and flags other == other

unfoldable pub syn : Header → Header
syn h = record h { flags = bit_or h.flags syn_flag }

unfoldable pub ack : Header → Header
ack h = record h { flags = bit_or h.flags ack_flag }

unfoldable pub fin : Header → Header
fin h = record h { flags = bit_or h.flags fin_flag }

unfoldable pub rst : Header → Header
rst h = record h { flags = bit_or h.flags rst_flag }

unfoldable pub data_header : ℕ → ℕ → Header
data_header id len = record { version = 0; tag = data_tag; flags = 0; stream_id = id; length = len }

unfoldable pub window_update_header : ℕ → ℕ → Header
window_update_header id credit = record {
  version = 0;
  tag = window_update_tag;
  flags = 0;
  stream_id = id;
  length = credit;
}

unfoldable pub ping_header : ℕ → Header
ping_header id = record { version = 0; tag = ping_tag; flags = 0; stream_id = 0; length = id }

unfoldable pub go_away : ℕ → Header
go_away code = record { version = 0; tag = go_away_tag; flags = 0; stream_id = 0; length = code }

unfoldable pub term : Header
term = go_away 0

unfoldable pub protocol_error : Header
protocol_error = go_away 1

unfoldable pub internal_error : Header
internal_error = go_away 2

abbrev pub connection_id : ℕ
connection_id = 0

unfoldable pub is_server : ℕ → Bool
is_server id = id % 2 == 0

unfoldable pub is_client : ℕ → Bool
unfolding is_server
is_client id = not (is_server id)

unfoldable pub is_session : ℕ → Bool
is_session id = id == connection_id

abbrev pub header_size : ℕ
header_size = 12

-- `hdr.tag as u8`.
tag_code : Tag → ℕ
tag_code data_tag = 0
tag_code window_update_tag = 1
tag_code ping_tag = 2
tag_code go_away_tag = 3

-- The match on `buf[1]`.
tag_of : ℕ → Option Tag
tag_of t =
    if t == 0
    then some data_tag
    else if t == 1
    then some window_update_tag
    else if t == 2
    then some ping_tag
    else if t == 3
    then some go_away_tag
    else none

unfoldable pub encode : Header → List ℕ
unfolding tag_code u16_to_be_bytes u32_to_be_bytes
encode h =
    h.version
    ∷ tag_code h.tag
    ∷ (u16_to_be_bytes h.flags ++ (u32_to_be_bytes h.stream_id ++ u32_to_be_bytes h.length))

pub data HeaderDecodeError : Type 0 where
  version type : ℕ → HeaderDecodeError

unfoldable pub decode : List ℕ → Result HeaderDecodeError Header
unfolding tag_of u16_from_be_bytes u32_from_be_bytes
decode buf = if not (at 0 == 0) then err (version (at 0)) else elim (tag_of (at 1)) [
  | none ↦ err (type (at 1))
  | some t ↦ ok (record {
    version = at 0;
    tag = t;
    flags = u16_from_be_bytes (at 2) (at 3);
    stream_id = u32_from_be_bytes (at 4) (at 5) (at 6) (at 7);
    length = u32_from_be_bytes (at 8) (at 9) (at 10) (at 11);
  })
]
  where
    at : ℕ → ℕ
    at i = get_or buf i 0
