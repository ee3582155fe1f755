-- ===== src/Chunks.antt =====
-- chunks.rs: the received bytes of a stream, as a queue of vectors with a read position in each.
pub mod Content
use rust_yamux.Common.{
  ℕ, ◌+◌, ◌-◌, Bool, true, false, Option, none, some, List, [], ◌∷◌, ◌++◌, ◌==◌, leb, if◌then◌else◌,
  length, drop,
}

-- `io::Cursor<Vec<u8>>`.
pub record Chunk : Type 0 where
  pub inner : List ℕ
  pub position : ℕ

pub record Chunks : Type 0 where
  pub seq : List Chunk
  pub total : ℕ

-- `Chunk::offset`, `Chunk::len`, `Chunk::is_empty`, and the `AsRef` view.
abbrev pub offset : Chunk → ℕ
offset c = c.position

abbrev pub chunk_len : Chunk → ℕ
chunk_len c = length c.inner - offset c

abbrev pub is_empty : Chunk → Bool
is_empty c = chunk_len c == 0

abbrev pub as_ref : Chunk → List ℕ
as_ref c = drop (offset c) c.inner

-- `none` is the failed assertion. A vector is shorter than 2 ^ 63, so the sum does not overflow
-- where the assertion holds.
unfoldable pub advance : Chunk → ℕ → Option Chunk
advance c amount =
    if leb (offset c + amount) (length c.inner)
    then some (record c { position = c.position + amount })
    else none

unfoldable pub new : Chunks
new = record { seq = []; total = 0 }

-- `self.seq.front().map(|c| c.offset()).unwrap_or(0)`.
abbrev pub front_offset : List Chunk → ℕ
front_offset [] = 0
front_offset (c ∷ cs) = offset c

unfoldable pub len : Chunks → ℕ
len s = s.total - front_offset s.seq

unfoldable pub push : Chunks → List ℕ → Chunks
push s [] = s
push s (b ∷ bs) = record {
  seq = s.seq ++ (record { inner = b ∷ bs; position = 0 } ∷ []);
  total = s.total + length (b ∷ bs);
}

pop_front : List Chunk → ℕ → Option Chunk × Chunks
pop_front [] n = (none, record { seq = []; total = n })
pop_front (c ∷ cs) n = (some c, record { seq = cs; total = n - (chunk_len c + offset c) })

unfoldable pub pop : Chunks → Option Chunk × Chunks
unfolding pop_front
pop s = pop_front s.seq s.total
