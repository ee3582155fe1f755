-- ===== src/Connection/Poll.antt =====
-- `Active::poll`: the loop of a healthy connection, as recursion on fuel over one turn. A turn has
-- four parts; each says whether the loop starts again, the function returns, or the next part runs.
pub mod Inv
pub mod Sends
use rust_yamux.Common.{
  ℕ, zero, suc, Option, none, some, Result, ok, err, Poll, ready, pending, panicked, stuck,
}
use rust_yamux.Action.{Action, no_action, new_stream, ping, terminate}
use rust_yamux.Error.{ConnectionError, io, decode, closed}
use rust_yamux.Frame.{Frame}
use rust_yamux.Frame.Io.{WriteResult, ReadResult}
use rust_yamux.Rtt
use rust_yamux.Connection.Wires.{Next, blocked, ended, item, Receivers, Wire, command_frame}
use rust_yamux.Connection.Active.{Handle, Active}
use rust_yamux.Connection.Removal.{on_drop_stream}
use rust_yamux.Connection.Handlers.{on_frame}

-- What a turn reads besides: the task that polls, and the clock, at a ping (twice) and at a pong.
pub record Tick : Type 0 where
  pub waker : ℕ
  pub now : ℕ
  pub sent : ℕ
  pub later : ℕ

abbrev pub PollResult : Type 0
PollResult = Poll (Result ConnectionError Handle)

pub data Flow : Type 0 where
  again next : Flow
  leave : PollResult → Flow

module _ {R T : Type 0} where
  -- The next part of the turn, where the one before has not ended it.
  abbrev pub and_then : (Active R T → Flow × Active R T) → Flow × Active R T → Flow × Active R T
  and_then part (next, c) = part c
  and_then part (again, c) = (again, c)
  and_then part (leave r, c) = (leave r, c)

  -- The end of a turn: the loop starts again, or it is over.
  abbrev pub settle :
      (Active R T → PollResult × Active R T) → Flow × Active R T → PollResult × Active R T
  settle loop (again, c) = loop c
  settle loop (next, c) = (pending, c)
  settle loop (leave r, c) = (r, c)

  abbrev pub send : Wire T → Frame → Active R T → Active R T
  send wire f c = record c { socket = wire.start_send f c.socket }

  -- `pending_read_frame.take().or_else(|| pending_write_frame.take())`.
  unfoldable pub send_pending :
      Wire T → Option Frame → Option Frame → Active R T → Flow × Active R T
  send_pending wire (some f) w c = (again, send wire f (record c { pending_read_frame = none }))
  send_pending wire none (some f) c = (again, send wire f (record c { pending_write_frame = none }))
  send_pending wire none none c = (next, c)

  unfoldable pub send_ping : Wire T → Option Frame × Rtt.Rtt → Active R T → Flow × Active R T
  unfolding send_pending
  send_ping wire (some f, r) c = (again, send wire f (record c { rtt = r }))
  send_ping wire (none, r) c =
      send_pending wire c.pending_read_frame c.pending_write_frame (record c { rtt = r })

  -- The socket is ready for a frame, be it with an error.
  unfoldable pub write_ready : Wire T → Tick → WriteResult → Active R T → Flow × Active R T
  unfolding send_ping
  write_ready wire k (ready _) c = send_ping wire (Rtt.next_ping k.now k.sent c.rtt) c
  write_ready wire k pending c = (next, c)
  write_ready wire k panicked c = (leave panicked, c)
  write_ready wire k stuck c = (leave stuck, c)

  unfoldable pub write_part : Wire T → Tick → Active R T → Flow × Active R T
  unfolding write_ready
  write_part wire k c =
      let (r, t) = wire.poll_ready c.socket in write_ready wire k r (record c { socket = t })

  unfoldable pub flushed : WriteResult → Active R T → Flow × Active R T
  flushed (ready (ok _)) c = (next, c)
  flushed (ready (err e)) c = (leave (ready (err (io e))), c)
  flushed pending c = (next, c)
  flushed panicked c = (leave panicked, c)
  flushed stuck c = (leave stuck, c)

  unfoldable pub flush_part : Wire T → Active R T → Flow × Active R T
  unfolding flushed
  flush_part wire c = let (r, t) = wire.poll_flush c.socket in flushed r (record c { socket = t })

  -- `if let Some(frame) = self.on_drop_stream(id) { pending_write_frame.replace(frame) }`.
  unfoldable pub dropped : Option Frame × Active R T → Active R T
  dropped (some f, c) = record c { pending_write_frame = some f }
  dropped (none, c) = c

  unfoldable pub command : ℕ → Next → Active R T → Flow × Active R T
  unfolding dropped command_frame
  command waker (item id (some cmd)) c =
      (again, record c { pending_write_frame = some (command_frame id cmd) })
  command waker (item id none) c = (again, dropped (on_drop_stream id c))
  command waker ended c = (next, record c { no_streams_waker = some waker })
  command waker blocked c = (next, c)

  unfoldable pub command_part : Receivers R → Tick → Active R T → Flow × Active R T
  unfolding command
  command_part recv k c = elim c.pending_write_frame [
    | some _ ↦ (next, c)
    | none ↦
        let (x, r) = recv.poll_next c.receivers in command k.waker x (record c { receivers = r })
  ]

  unfoldable pub act : Result ConnectionError (Action Handle) × Active R T → Flow × Active R T
  act (ok no_action, c) = (again, c)
  act (ok (new_stream h), c) = (leave (ready (ok h)), c)
  act (ok (ping f), c) = (again, record c { pending_read_frame = some f })
  act (ok (terminate f), c) = (again, record c { pending_read_frame = some f })
  act (err e, c) = (leave (ready (err e)), c)

  module _ (push : ℕ → ℕ → R → R) where
    unfoldable pub received : Tick → ReadResult → Active R T → Flow × Active R T
    unfolding act
    received k (ready (some (ok f))) c = act (on_frame push k.now k.later f c)
    received k (ready (some (err e))) c = (leave (ready (err (decode e))), c)
    received k (ready none) c = (leave (ready (err closed)), c)
    received k pending c = (next, c)
    received k panicked c = (leave panicked, c)
    received k stuck c = (leave stuck, c)

    unfoldable pub read_part : Wire T → Tick → Active R T → Flow × Active R T
    unfolding received
    read_part wire k c = elim c.pending_read_frame [
      | some _ ↦ (next, c)
      | none ↦ let (x, t) = wire.poll_next c.socket in received k x (record c { socket = t })
    ]

    unfoldable pub turn : Receivers R → Wire T → Tick → Active R T → Flow × Active R T
    unfolding write_part flush_part command_part read_part
    turn recv wire k c =
        and_then (read_part wire k)
          (and_then (command_part recv k) (and_then (flush_part wire) (write_part wire k c)))

    unfoldable pub poll :
        Receivers R → Wire T → (ℕ → Tick) → ℕ → Active R T → PollResult × Active R T
    unfolding turn
    poll recv wire ticks zero c = (stuck, c)
    poll recv wire ticks (suc n) c = settle (poll recv wire ticks n) (turn recv wire (ticks n) c)
