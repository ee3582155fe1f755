-- ===== src/Connection/Poll/Sends/Loop.antt =====
-- `Active::poll`: every frame that the loop hands to the socket is one that the codec carries.
use rust_yamux.Common.{
  ℕ, ready, some, Option, ◌<◌, ok, none, ◌^◌, err, Result, suc, pending, panicked, zero, stuck, ◌≤◌,
}
use rust_yamux.Action.{Action, no_action, new_stream, ping, terminate}
use rust_yamux.Error.{ConnectionError}
use rust_yamux.Frame.{Frame}
use rust_yamux.Frame.Io.{WriteResult, ReadResult}
use rust_yamux.Rtt
use rust_yamux.Connection.Wires.{Next, blocked, ended, item, Receivers, Wire}
use rust_yamux.Connection.Active.{Handle, Active}
use rust_yamux.Connection.Removal.{on_drop_stream}
use rust_yamux.Connection.Handlers.{on_frame}
use rust_yamux.Connection.Branches.{acked_either}
use rust_yamux.Connection.Poll.{
  Tick, PollResult, Flow, again, next, leave, and_then, settle, send_pending, send_ping,
  write_ready, write_part, flushed, flush_part, dropped, command, command_part, act, received,
  read_part, turn, poll,
}
use rust_yamux.Connection.Poll.Sends.Commands.{Commanded, command-Carried}
use rust_yamux.Config.{mib}
use rust_yamux.Connection.Poll.Sends.{
  Carried, MayCarry, Accepts, next_ping-Carried, on_frame-Accepts,
}
use rust_yamux.Connection.Poll.Sends.Handlers.{
  Sends, on_ack-Sends, on_frame-Sends, on_drop_stream-Sends,
}

-- What a socket answers to a read: the length of a frame is a `u32`.
abbrev pub Reads : ReadResult → Type 0
Reads (ready (some (ok f))) = f.header.length < 2 ^ 32
Reads _ = Unit {0}

-- `Good` says of a socket that it was handed only frames that the codec carries.
pub record CarriesFrames {T : Type 0} (wire : Wire T) (Good : T → Type 0) : Type 0 where
  pub readies : (t : T) → Good t → Good (wire.poll_ready t).1
  pub flushes : (t : T) → Good t → Good (wire.poll_flush t).1
  pub reads : (t : T) → Good t → Reads (wire.poll_next t).0 × Good (wire.poll_next t).1
  pub sends : (f : Frame) (t : T) → Carried f → Good t → Good (wire.start_send f t)

-- What the channels yield: the command of a stream whose writes are split into pieces of at most
-- `split` bytes, or the identifier of a stream that was dropped.
abbrev pub Yields : ℕ → Next → Type 0
Yields split (item id (some cmd)) = (id < 2 ^ 32) × Commanded split cmd
Yields split (item id none) = id < 2 ^ 32
Yields split _ = Unit {0}

pub record BringsCommands {R : Type 0} (push : ℕ → ℕ → R → R) (recv : Receivers R) (split : ℕ)
    (Fine : R → Type 0) : Type 0 where
  pub pushes : (id a : ℕ) (r : R) → Fine r → Fine (push id a r)
  pub yields : (r : R) → Fine r → Yields split (recv.poll_next r).0 × Fine (recv.poll_next r).1

module _ {R T : Type 0} (Good : T → Type 0) (Fine : R → Type 0) where
  flushed-Sends :
      (r : WriteResult) (c : Active R T) → Sends Good Fine c → Sends Good Fine (flushed r c).1
  unfolding flushed
  flushed-Sends (ready (ok u)) c h = h
  flushed-Sends (ready (err e)) c h = h
  flushed-Sends pending c h = h
  flushed-Sends panicked c h = h
  flushed-Sends stuck c h = h

  dropped-Sends :
      (x : Option Frame × Active R T)
      → MayCarry x.0
      → Sends Good Fine x.1
      → Sends Good Fine (dropped x)
  unfolding dropped
  dropped-Sends (some f, c) p h = (h.0, h.1, h.2, p, h.4)
  dropped-Sends (none, c) p h = h

  command-Sends :
      (split waker : ℕ) (x : Next) (c : Active R T)
      → split ≤ mib
      → Yields split x
      → Sends Good Fine c
      → Sends Good Fine (command waker x c).1
  unfolding command
  command-Sends split waker (item id (some cmd)) c m g h =
      (h.0, h.1, h.2, command-Carried split id cmd m g.0 g.1, h.4)
  command-Sends split waker (item id none) c m g h =
      let p = on_drop_stream-Sends Good Fine id c g h in dropped-Sends (on_drop_stream id c) p.0 p.1
  command-Sends split waker ended c m g h = h
  command-Sends split waker blocked c m g h = h

  act-Sends :
      (x : Result ConnectionError (Action Handle) × Active R T)
      → Accepts x.0
      → Sends Good Fine x.1
      → Sends Good Fine (act x).1
  unfolding act
  act-Sends (ok no_action, c) p h = h
  act-Sends (ok (new_stream s), c) p h = h
  act-Sends (ok (ping f), c) p h = (h.0, h.1, p, h.3, h.4)
  act-Sends (ok (terminate f), c) p h = (h.0, h.1, p, h.3, h.4)
  act-Sends (err e, c) p h = h

  and_then-Sends :
      (part : Active R T → Flow × Active R T) (x : Flow × Active R T)
      → ((c : Active R T) → Sends Good Fine c → Sends Good Fine (part c).1)
      → Sends Good Fine x.1
      → Sends Good Fine (and_then part x).1
  and_then-Sends part (next, c) k h = k c h
  and_then-Sends part (again, c) k h = h
  and_then-Sends part (leave r, c) k h = h

  settle-Sends :
      (loop : Active R T → PollResult × Active R T) (x : Flow × Active R T)
      → ((c : Active R T) → Sends Good Fine c → Sends Good Fine (loop c).1)
      → Sends Good Fine x.1
      → Sends Good Fine (settle loop x).1
  settle-Sends loop (again, c) k h = k c h
  settle-Sends loop (next, c) k h = h
  settle-Sends loop (leave r, c) k h = h

  module _ (push : ℕ → ℕ → R → R) (pushes : (id a : ℕ) (r : R) → Fine r → Fine (push id a r)) where
    received-Sends :
        (k : Tick) (x : ReadResult) (c : Active R T)
        → Reads x
        → Sends Good Fine c
        → Sends Good Fine (received push k x c).1
    unfolding received
    received-Sends k (ready (some (ok f))) c p h =
        act-Sends (on_frame push k.now k.later f c)
          (on_frame-Accepts push k.now k.later f c p
            (acked_either (Sends Good Fine) f c h
              (on_ack-Sends Good Fine f.header.stream_id c h)).4)
          (on_frame-Sends Good Fine push pushes k.now k.later f c h)
    received-Sends k (ready (some (err e))) c p h = h
    received-Sends k (ready none) c p h = h
    received-Sends k pending c p h = h
    received-Sends k panicked c p h = h
    received-Sends k stuck c p h = h

  module _ (wire : Wire T) (carries : CarriesFrames wire Good) where
    send_pending-Sends :
        (r w : Option Frame) (c : Active R T)
        → MayCarry r
        → MayCarry w
        → Sends Good Fine c
        → Sends Good Fine (send_pending wire r w c).1
    unfolding send_pending
    send_pending-Sends (some f) w c p q h = (carries.sends f c.socket p h.0, h.1, tt, h.3, h.4)
    send_pending-Sends none (some f) c p q h = (carries.sends f c.socket q h.0, h.1, h.2, tt, h.4)
    send_pending-Sends none none c p q h = h

    send_ping-Sends :
        (x : Option Frame × Rtt.Rtt) (c : Active R T)
        → MayCarry x.0
        → x.1.next_id < 2 ^ 32
        → Sends Good Fine c
        → Sends Good Fine (send_ping wire x c).1
    unfolding send_ping
    send_ping-Sends (some f, r) c p l h = (carries.sends f c.socket p h.0, h.1, h.2, h.3, l)
    send_ping-Sends (none, r) c p l h =
        send_pending-Sends c.pending_read_frame c.pending_write_frame (record c { rtt = r }) h.2 h.3
          (h.0, h.1, h.2, h.3, l)

    write_ready-Sends :
        (k : Tick) (r : WriteResult) (c : Active R T)
        → Sends Good Fine c
        → Sends Good Fine (write_ready wire k r c).1
    unfolding write_ready
    write_ready-Sends k (ready r) c h =
        let p = next_ping-Carried k.now k.sent c.rtt h.4 in
        send_ping-Sends (Rtt.next_ping k.now k.sent c.rtt) c p.0 p.1 h
    write_ready-Sends k pending c h = h
    write_ready-Sends k panicked c h = h
    write_ready-Sends k stuck c h = h

  module _ (push : ℕ → ℕ → R → R) (recv : Receivers R) (wire : Wire T) (split : ℕ)
      (piece : split ≤ mib) (commands : BringsCommands push recv split Fine)
      (frames : CarriesFrames wire Good) where
    command_part-Sends :
        (k : Tick) (c : Active R T) → Sends Good Fine c → Sends Good Fine (command_part recv k c).1
    unfolding command_part
    command_part-Sends k c h = at c.pending_write_frame
      where
        at :
            (x : Option Frame)
            → Sends Good Fine
                (elim x as (λ _. Flow × Active R T) [
                  | some _ ↦ (next, c)
                  | none ↦
                      let (y, r) = recv.poll_next c.receivers in
                      command k.waker y (record c { receivers = r })
                ]).1
        at (some f) = h
        at none =
            let g = commands.yields c.receivers h.1 in
            command-Sends split k.waker (recv.poll_next c.receivers).0
              (record c { receivers = (recv.poll_next c.receivers).1 }) piece g.0
              (h.0, g.1, h.2, h.3, h.4)

    read_part-Sends :
        (k : Tick) (c : Active R T)
        → Sends Good Fine c
        → Sends Good Fine (read_part push wire k c).1
    unfolding read_part
    read_part-Sends k c h = at c.pending_read_frame
      where
        at :
            (x : Option Frame)
            → Sends Good Fine
                (elim x as (λ _. Flow × Active R T) [
                  | some _ ↦ (next, c)
                  | none ↦
                      let (y, t) = wire.poll_next c.socket in
                      received push k y (record c { socket = t })
                ]).1
        at (some f) = h
        at none =
            let g = frames.reads c.socket h.0 in
            received-Sends push commands.pushes k (wire.poll_next c.socket).0
              (record c { socket = (wire.poll_next c.socket).1 }) g.0 (g.1, h.1, h.2, h.3, h.4)

    turn-Sends :
        (k : Tick) (c : Active R T)
        → Sends Good Fine c
        → Sends Good Fine (turn push recv wire k c).1
    unfolding turn write_part flush_part
    turn-Sends k c h = and_then-Sends (read_part push wire k) _ (read_part-Sends k) (
        and_then-Sends (command_part recv k) _ (command_part-Sends k) (
          and_then-Sends (flush_part wire) (write_part wire k c)
            (λ d p.
              flushed-Sends (wire.poll_flush d.socket).0
                (record d { socket = (wire.poll_flush d.socket).1 })
                (frames.flushes d.socket p.0, p.1, p.2, p.3, p.4))
            (write_ready-Sends wire frames k (wire.poll_ready c.socket).0
              (record c { socket = (wire.poll_ready c.socket).1 })
              (frames.readies c.socket h.0, h.1, h.2, h.3, h.4))))

    -- Where writes are split into pieces of at most a megabyte, the streams give only such commands
    -- as `Commanded` lists, and the lengths of the frames that come in are `u32`s, the loop of a healthy
    -- connection hands the socket only frames that the codec carries, and keeps only such frames for
    -- later, for any number of turns, if that was so before: pings, pongs, error codes, the goodbyes of
    -- dropped streams, data, window updates and closes. The identifier of the next ping is a `u32`.
    pub poll-Sends :
        (ticks : ℕ → Tick) (fuel : ℕ) (c : Active R T)
        → Sends Good Fine c
        → Sends Good Fine (poll push recv wire ticks fuel c).1
    unfolding poll
    poll-Sends ticks zero c h = h
    poll-Sends ticks (suc n) c h =
        settle-Sends (poll push recv wire ticks n) (turn push recv wire (ticks n) c)
          (poll-Sends ticks n) (turn-Sends (ticks n) c h)
