-- ===== src/Stream/Lifecycle.antt =====
-- The state of a stream is two half-closes: whether we may still read, and whether we may write.
use rust_yamux.Common.{Bool, true, ◌&&◌, ◌≡◌, refl, List, [], ◌∷◌, arith}
use rust_yamux.Stream.State.{
  State, opened, send_closed, recv_closed, closed, can_read, can_write, next_state,
}

next_state_meet :
    (s n : State)
    → (can_read (next_state s n) ≡ (can_read s && can_read n))
      × (can_write (next_state s n) ≡ (can_write s && can_write n))
unfolding next_state can_read can_write
next_state_meet closed n = (refl, refl)
next_state_meet (opened a) n = (refl, refl)
next_state_meet recv_closed closed = (refl, refl)
next_state_meet recv_closed _ = (refl, refl)
next_state_meet send_closed closed = (refl, refl)
next_state_meet send_closed _ = (refl, refl)

unfoldable pub updates : State → List State → State
updates s [] = s
updates s (n ∷ ns) = updates (next_state s n) ns

unfoldable pub all_read : List State → Bool
all_read [] = true
all_read (n ∷ ns) = can_read n && all_read ns

unfoldable pub all_write : List State → Bool
all_write [] = true
all_write (n ∷ ns) = can_write n && all_write ns

-- After any sequence of updates a stream can be read exactly if it could be at the start and no
-- update closed the receiving side, and written exactly if it could be and no update closed the
-- sending side. So neither side is reopened, and the order of the updates does not matter.
pub updates_meet :
    (s : State) (ns : List State)
    → (can_read (updates s ns) ≡ (can_read s && all_read ns))
      × (can_write (updates s ns) ≡ (can_write s && all_write ns))
unfolding updates all_read all_write
updates_meet s [] = ground arith
updates_meet s (n ∷ ns) = ground (arith, updates_meet (next_state s n) ns, next_state_meet s n)
