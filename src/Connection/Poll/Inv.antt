-- ===== src/Connection/Poll/Inv.antt =====
-- `Active::poll`: what holds after any number of turns of its loop.
use rust_yamux.Common.{
  ℕ, zero, suc, Option, none, some, Result, ok, err, ready, pending, panicked, stuck,
}
use rust_yamux.Action.{Action, no_action, new_stream, ping, terminate}
use rust_yamux.Error.{ConnectionError}
use rust_yamux.Frame.{Frame}
use rust_yamux.Frame.Io.{WriteResult, ReadResult}
use rust_yamux.Rtt
use rust_yamux.Connection.Wires.{Next, blocked, ended, item, Receivers, Wire}
use rust_yamux.Connection.Active.{Handle, Active}
use rust_yamux.Connection.Inv.{IsValid}
use rust_yamux.Connection.Removal.{on_drop_stream}
use rust_yamux.Connection.Handlers.{on_frame}
use rust_yamux.Connection.Steps.{on_frame-IsValid, on_drop_stream-IsValid}
use rust_yamux.Connection.Poll.{
  Tick, PollResult, Flow, again, next, leave, and_then, settle, send_pending, send_ping,
  write_ready, write_part, flushed, flush_part, dropped, command, command_part, act, received,
  read_part, turn, poll,
}

module _ {R T : Type 0} where
  send_pending-IsValid :
      (wire : Wire T) (r w : Option Frame) (c : Active R T)
      → IsValid c
      → IsValid (send_pending wire r w c).1
  unfolding send_pending
  send_pending-IsValid wire (some f) w c h = h
  send_pending-IsValid wire none (some f) c h = h
  send_pending-IsValid wire none none c h = h

  send_ping-IsValid :
      (wire : Wire T) (x : Option Frame × Rtt.Rtt) (c : Active R T)
      → IsValid c
      → IsValid (send_ping wire x c).1
  unfolding send_ping
  send_ping-IsValid wire (some f, r) c h = h
  send_ping-IsValid wire (none, r) c h =
      send_pending-IsValid wire c.pending_read_frame c.pending_write_frame (record c { rtt = r }) h

  write_ready-IsValid :
      (wire : Wire T) (k : Tick) (r : WriteResult) (c : Active R T)
      → IsValid c
      → IsValid (write_ready wire k r c).1
  unfolding write_ready
  write_ready-IsValid wire k (ready r) c h =
      send_ping-IsValid wire (Rtt.next_ping k.now k.sent c.rtt) c h
  write_ready-IsValid wire k pending c h = h
  write_ready-IsValid wire k panicked c h = h
  write_ready-IsValid wire k stuck c h = h

  flushed-IsValid : (r : WriteResult) (c : Active R T) → IsValid c → IsValid (flushed r c).1
  unfolding flushed
  flushed-IsValid (ready (ok u)) c h = h
  flushed-IsValid (ready (err e)) c h = h
  flushed-IsValid pending c h = h
  flushed-IsValid panicked c h = h
  flushed-IsValid stuck c h = h

  dropped-IsValid : (x : Option Frame × Active R T) → IsValid x.1 → IsValid (dropped x)
  unfolding dropped
  dropped-IsValid (some f, c) h = h
  dropped-IsValid (none, c) h = h

  command-IsValid :
      (waker : ℕ) (x : Next) (c : Active R T) → IsValid c → IsValid (command waker x c).1
  unfolding command
  command-IsValid waker (item id (some cmd)) c h = h
  command-IsValid waker (item id none) c h =
      dropped-IsValid (on_drop_stream id c) (on_drop_stream-IsValid id c h)
  command-IsValid waker ended c h = h
  command-IsValid waker blocked c h = h

  command_part-IsValid :
      (recv : Receivers R) (k : Tick) (c : Active R T)
      → IsValid c
      → IsValid (command_part recv k c).1
  unfolding command_part
  command_part-IsValid recv k c h = at c.pending_write_frame
    where
      at :
          (x : Option Frame)
          → IsValid
              (elim x as (λ _. Flow × Active R T) [
                | some _ ↦ (next, c)
                | none ↦
                    let (y, r) = recv.poll_next c.receivers in
                    command k.waker y (record c { receivers = r })
              ]).1
      at (some f) = h
      at none =
          command-IsValid k.waker (recv.poll_next c.receivers).0
            (record c { receivers = (recv.poll_next c.receivers).1 }) h

  act-IsValid :
      (x : Result ConnectionError (Action Handle) × Active R T) → IsValid x.1 → IsValid (act x).1
  unfolding act
  act-IsValid (ok no_action, c) h = h
  act-IsValid (ok (new_stream s), c) h = h
  act-IsValid (ok (ping f), c) h = h
  act-IsValid (ok (terminate f), c) h = h
  act-IsValid (err e, c) h = h

  -- A part that keeps the invariant keeps it after the parts before.
  and_then-IsValid :
      (part : Active R T → Flow × Active R T) (x : Flow × Active R T)
      → ((c : Active R T) → IsValid c → IsValid (part c).1)
      → IsValid x.1
      → IsValid (and_then part x).1
  and_then-IsValid part (next, c) k h = k c h
  and_then-IsValid part (again, c) k h = h
  and_then-IsValid part (leave r, c) k h = h

  settle-IsValid :
      (loop : Active R T → PollResult × Active R T) (x : Flow × Active R T)
      → ((c : Active R T) → IsValid c → IsValid (loop c).1)
      → IsValid x.1
      → IsValid (settle loop x).1
  settle-IsValid loop (again, c) k h = k c h
  settle-IsValid loop (next, c) k h = h
  settle-IsValid loop (leave r, c) k h = h

  module _ (push : ℕ → ℕ → R → R) where
    received-IsValid :
        (k : Tick) (x : ReadResult) (c : Active R T) → IsValid c → IsValid (received push k x c).1
    unfolding received
    received-IsValid k (ready (some (ok f))) c h =
        act-IsValid (on_frame push k.now k.later f c) (on_frame-IsValid push k.now k.later f c h)
    received-IsValid k (ready (some (err e))) c h = h
    received-IsValid k (ready none) c h = h
    received-IsValid k pending c h = h
    received-IsValid k panicked c h = h
    received-IsValid k stuck c h = h

    read_part-IsValid :
        (wire : Wire T) (k : Tick) (c : Active R T)
        → IsValid c
        → IsValid (read_part push wire k c).1
    unfolding read_part
    read_part-IsValid wire k c h = at c.pending_read_frame
      where
        at :
            (x : Option Frame)
            → IsValid
                (elim x as (λ _. Flow × Active R T) [
                  | some _ ↦ (next, c)
                  | none ↦
                      let (y, t) = wire.poll_next c.socket in
                      received push k y (record c { socket = t })
                ]).1
        at (some f) = h
        at none =
            received-IsValid k (wire.poll_next c.socket).0
              (record c { socket = (wire.poll_next c.socket).1 }) h

    turn-IsValid :
        (recv : Receivers R) (wire : Wire T) (k : Tick) (c : Active R T)
        → IsValid c
        → IsValid (turn push recv wire k c).1
    unfolding turn write_part flush_part
    turn-IsValid recv wire k c h =
        and_then-IsValid (read_part push wire k) _ (read_part-IsValid wire k) (
          and_then-IsValid (command_part recv k) _ (command_part-IsValid recv k) (
            and_then-IsValid (flush_part wire) (write_part wire k c)
              (λ d.
                flushed-IsValid (wire.poll_flush d.socket).0
                  (record d { socket = (wire.poll_flush d.socket).1 }))
              (write_ready-IsValid wire k (wire.poll_ready c.socket).0
                (record c { socket = (wire.poll_ready c.socket).1 }) h)))

    -- The loop of a valid connection leaves it valid, whatever the socket and the channels answer, for
    -- any number of turns: the stream limit, the parity of the next identifier, and an address of its
    -- own for each stream.
    pub poll-IsValid :
        (recv : Receivers R) (wire : Wire T) (ticks : ℕ → Tick) (fuel : ℕ) (c : Active R T)
        → IsValid c
        → IsValid (poll push recv wire ticks fuel c).1
    unfolding poll
    poll-IsValid recv wire ticks zero c h = h
    poll-IsValid recv wire ticks (suc n) c h =
        settle-IsValid (poll push recv wire ticks n) (turn push recv wire (ticks n) c)
          (poll-IsValid recv wire ticks n) (turn-IsValid recv wire (ticks n) c h)
