-- ===== src/Config/Laws.antt =====
-- What a configuration promises, and that the setters keep the promise.
use rust_yamux.Common.{
  ℕ, ◌*◌, ◌≤◌, ◌≡◌, Bool, Option, none, some, List, [], ◌∷◌, arith, ◌>>=◌, ◌⊎◌, All, inl, inr,
}
use rust_yamux.Common.Words.{usize_max}
use rust_yamux.Config.{
  Config, window_limit, default_credit, set_max_connection_receive_window, set_max_num_streams,
  set_read_after_close, set_split_send_size, default,
}

-- Each stream can have the default window within the limit of the connection.
pub record IsValid (c : Config) : Type 0 where
  pub limit_usize : window_limit c ≤ usize_max
  pub room : c.max_num_streams * default_credit ≤ window_limit c

-- A limit that a caller passes is a `usize`.
abbrev pub IsLimit : Option ℕ → Type 0
IsLimit none = Unit {0}
IsLimit (some n) = n ≤ usize_max

pub data Setter : Type 0 where
  max_connection_receive_window : Option ℕ → Setter
  max_num_streams : ℕ → Setter
  read_after_close : Bool → Setter
  split_send_size : ℕ → Setter

abbrev pub IsSetter : Setter → Type 0
IsSetter (max_connection_receive_window n) = IsLimit n
IsSetter _ = Unit {0}

unfoldable pub apply : Config → Setter → Option Config
apply c (max_connection_receive_window n) = set_max_connection_receive_window c n
apply c (max_num_streams n) = set_max_num_streams c n
apply c (read_after_close b) = some (set_read_after_close c b)
apply c (split_send_size n) = some (set_split_send_size c n)

unfoldable pub apply_all : Config → List Setter → Option Config
apply_all c [] = some c
apply_all c (s ∷ ss) = apply c s >>= λ d. apply_all d ss

-- What a setter makes of the configuration, if it does not panic.
unfoldable pub updated : Config → Setter → Config
updated c (max_connection_receive_window n) = record c { max_connection_receive_window = n }
updated c (max_num_streams n) = record c { max_num_streams = n }
updated c (read_after_close b) = record c { read_after_close = b }
updated c (split_send_size n) = record c { split_send_size = n }

-- A setter of a valid configuration returns the updated configuration if the windows of
-- `max_num_streams` streams fit into the limit of the connection, and panics if they do not.
pub apply_lem :
    (c : Config) (s : Setter)
    → IsValid c
    → IsSetter s
    → (IsValid (updated c s) × (apply c s ≡ some (updated c s)))
      ⊎ ((¬ IsValid (updated c s)) × (apply c s ≡ none))
unfolding apply updated set_max_connection_receive_window set_max_num_streams set_read_after_close
    set_split_send_size
apply_lem c (max_connection_receive_window none) v h = ground arith
apply_lem c (max_connection_receive_window (some n)) v h = ground arith
apply_lem c (max_num_streams n) v h = ground arith
apply_lem c (read_after_close b) v h = ground arith
apply_lem c (split_send_size n) v h = ground arith

pub default-IsValid : IsValid default
default-IsValid = omega arith

-- Any sequence of setter calls on the default configuration that does not panic leaves room for
-- the default window of each stream.
pub apply_all-IsValid :
    (c : Config) (ss : List Setter) {d : Config}
    → IsValid c
    → All IsSetter ss
    → apply_all c ss ≡ some d
    → IsValid d
unfolding apply_all
apply_all-IsValid c [] v h e = ground arith
apply_all-IsValid c (s ∷ ss) v h e = elim (apply_lem c s v h.0) [
  | inl (w, f) ↦ apply_all-IsValid (updated c s) ss w h.1 (rw f at e)
  | inr (w, f) ↦ let e' : none ≡ some _ = rw f at e in cc
]
