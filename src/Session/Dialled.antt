-- ===== src/Session/Dialled.antt =====
-- The link between two connections once one has asked for a stream and written to it, and the other
-- has read the frame.
use rust_yamux.Common.{
  ◌⊎◌, ℕ, ◌-◌, ◌≡◌, ◌≤◌, refl, false, List, [], ◌∷◌, ◌++◌, length, take, length-take, Option, some,
  ok, ready, arith, ap, sym, ◌∙◌, inl, inr, Poll, Result,
}
use rust_yamux.Config.{default_credit}
use rust_yamux.Chunks
use rust_yamux.Chunks.Content
use rust_yamux.FlowControl
use rust_yamux.Frame.{Frame}
use rust_yamux.Frame.Header.{data_tag}
use rust_yamux.Stream.State.{Flag, opened, no_flag, ack_first, syn_first, can_read, can_write}
use rust_yamux.Stream.Shared
use rust_yamux.Stream.Shared.{Shared}
use rust_yamux.Stream.Handle.{Channel, Context, writing, Stream, send_frame, poll_write}
use rust_yamux.Stream.Writing.{accepted, data_of, poll_write_lem, state_after, Writes}
use rust_yamux.Connection.StreamMap.{get}
use rust_yamux.Connection.Active.{Active, Handle, write}
use rust_yamux.Connection.Opening.{poll_new_outbound}
use rust_yamux.Connection.Handlers.{on_frame}
use rust_yamux.Connection.Inbound.{Admissible}
use rust_yamux.Session.{Fifo, End, Call, call, run, reported_written, stream_of}
use rust_yamux.Session.Flight.{frames_of}
use rust_yamux.Session.Direction.{Side, side, idle-Dir}
use rust_yamux.Session.Dial.{Answered, first_frame, opened_lem, answered, Answered}
use rust_yamux.Session.Steps.{Opened-Sound, Sound, write_same}
use rust_yamux.Session.Link.{Opened, Link, flip, ahead}

module _ {C : Type 0} (ch : Channel C) (cx : Context) (s : Stream C) (buf : List ℕ) (c : C) where
  -- The first write of the caller goes through, with as many bytes as the default credit admits.
  pub record FirstWrite (out : Poll (Result ℕ ℕ) × Stream C) : Type 0 where
    pub taken : out.0 ≡ ready (ok (accepted ch cx s buf))
    pub flag_sent : out.1.flag ≡ no_flag
    pub queue : out.1.channel ≡ (ch.start_send writing (send_frame (data_of ch cx s buf)) c).1
    pub state : out.1.shared.state ≡ opened false
    pub send : out.1.shared.flow.send_window ≡ default_credit - accepted ch cx s buf
    pub receive : out.1.shared.flow.receive_window ≡ default_credit
    pub buffer : out.1.shared.buffer ≡ Chunks.new

module _ {C : Type 0} (ch : Channel C) (cx : Context) (s : Stream C) (now : ℕ) (buf : List ℕ)
    (c : C) (flag : s.flag ≡ syn_first)
    (fresh : s.shared ≡ Shared.new default_credit default_credit now)
    (room : ch.poll_ready writing cx.waker s.channel ≡ (ready (ok tt), c))
    (sent : (ch.start_send writing (send_frame (data_of ch cx s buf)) c).0 ≡ ok tt) where
  pub first_write : FirstWrite ch cx s buf c (poll_write ch cx buf s)
  unfolding Shared.new FlowControl.new can_write
  first_write = go (poll_write_lem ch cx s c buf (ground (arith, fresh)) room)
    where
      go :
          Writes ch cx s c buf (poll_write ch cx buf s)
          → FirstWrite ch cx s buf c (poll_write ch cx buf s)
      go (inl (w, p)) = absurd (ground (arith, w, fresh))
      go (inr (inl (w, z, p))) = absurd (ground (arith, z, fresh))
      go (inr (inr (w, z, p, q))) =
          unfold state_after in
          record {
            taken = ground (arith, p, sent);
            flag_sent = ground (arith, q);
            queue = ap (λ (x : Stream C). x.channel) q;
            state = ground (arith, q, flag, fresh);
            send = ground (arith, q, fresh);
            receive = ground (arith, q, fresh);
            buffer = ground (arith, q, fresh);
          }

module _ {R T C : Type 0} (ch : Channel C) (fifo : Fifo ch) (push : ℕ → ℕ → R → R) where
  -- The caller's end before its first write.
  abbrev pub asked : Active R T → Handle → C → End R T C
  asked conn handle channel = record {
    conn = conn;
    handle = handle;
    channel = channel;
    written = [];
    got = [];
  }

  abbrev pub frame_of : Context → List ℕ → End R T C → Frame
  frame_of cx buf e =
      let n = accepted ch cx (stream_of e) buf in first_frame e.handle.id n (take n buf)

  -- A stream that one side has asked for and written to, where the other side, which admits it, has
  -- read the frame. Both channels are empty but for that frame, and there is room for it.
  pub record Dialled (l : Link R T C) : Type 0 where
    pub caller : Active R T
    pub callee : Active R T
    pub conn : Active R T
    pub handle : Handle
    pub channel : C
    pub with_room : C
    pub answer : C
    pub cx : Context
    pub buf : List ℕ
    pub waker : ℕ
    pub now : ℕ
    pub later : ℕ
    pub dials : poll_new_outbound push waker now caller ≡ (ready (ok handle), conn)
    pub room : ch.poll_ready writing cx.waker channel ≡ (ready (ok tt), with_room)
    pub idle : fifo.queued channel ≡ []
    pub idle_answer : fifo.queued answer ≡ []
    pub admits : Admissible data_tag (frame_of cx buf (asked conn handle channel)) callee
    pub left :
        let e = call ch cx (Call.write buf) (asked conn handle channel) in
        l.left ≡ record e { channel = fifo.taken e.channel }
    pub right :
        l.right
        ≡ asked
            (on_frame push now later (frame_of cx buf (asked conn handle channel)) callee).1
            (record { id = handle.id; address = callee.fresh; flag = ack_first })
            answer
    pub out : l.out ≡ []
    pub back : l.back ≡ []

  module _ (l : Link R T C) (d : Dialled l) where
    abbrev e : End R T C
    e = asked d.conn d.handle d.channel

    abbrev n : ℕ
    n = accepted ch d.cx (stream_of e) d.buf

    write_lem :
        FirstWrite ch d.cx (stream_of e) d.buf d.with_room (poll_write ch d.cx d.buf (stream_of e))
    write_lem =
        let o = opened_lem push d.waker d.now d.caller d.conn d.handle d.dials in
        let s =
          fifo.sends writing d.cx.waker (send_frame (data_of ch d.cx (stream_of e) d.buf)) d.channel
            d.with_room d.room in
        first_write ch d.cx (stream_of e) d.now d.buf d.with_room o.0 o.2 d.room s.0

    sent_by_call : (call ch d.cx (Call.write d.buf) e).written ≡ take n d.buf
    unfolding call run reported_written
    sent_by_call = ground (arith, write_lem.taken)

    asked_lem :
        (d.handle.flag ≡ syn_first)
        × (get d.handle.id d.conn.streams ≡ some d.handle.address)
        × (d.conn.heap d.handle.address ≡ Shared.new default_credit default_credit d.now)
    asked_lem = opened_lem push d.waker d.now d.caller d.conn d.handle d.dials

    short : length (take n d.buf) ≡ n
    short = omega (arith, length-take n d.buf)

    n_small : n ≤ default_credit
    unfolding Shared.new FlowControl.new
    n_small = ground (arith, asked_lem.2)

    answer_lem :
        Answered push d.handle.id n
          (take n d.buf)
          d.callee
          (on_frame push d.now d.later (frame_of d.cx d.buf e) d.callee)
    answer_lem =
        answered push d.handle.id n (take n d.buf) d.now d.later d.callee d.admits
          (omega (arith, short, n_small))

    -- The caller's end, once its frame is gone.
    left_side : Side
    left_side = record {
      handle = record { id = d.handle.id; address = d.handle.address; flag = no_flag };
      shared = (poll_write ch d.cx d.buf (stream_of e)).1.shared;
      entry = some d.handle.address;
      written = take n d.buf;
      got = [];
    }

    left_lem : side l.left ≡ left_side
    unfolding call run reported_written left_side
    left_lem =
        ap side d.left
        ∙ ap (λ f. made f (write d.conn.heap a x a) (get d.handle.id d.conn.streams) out.0)
            write_lem.flag_sent
        ∙ ap (λ y. made no_flag y (get d.handle.id d.conn.streams) out.0)
            (write_same d.conn.heap a x)
        ∙ ap (λ y. made no_flag x y out.0) asked_lem.1
        ∙ ap (λ r. made no_flag x (some a) r) write_lem.taken
      where
        out : Poll (Result ℕ ℕ) × Stream C
        out = poll_write ch d.cx d.buf (stream_of e)

        a : ℕ
        a = d.handle.address

        x : Shared
        x = out.1.shared

        made : Flag → Shared → Option ℕ → Poll (Result ℕ ℕ) → Side
        made f y entry r = record {
          handle = record { id = d.handle.id; address = a; flag = f };
          shared = y;
          entry = entry;
          written = reported_written d.buf r;
          got = [];
        }

    called_queue :
        fifo.queued (poll_write ch d.cx d.buf (stream_of e)).1.channel
        ≡ send_frame (data_of ch d.cx (stream_of e) d.buf) ∷ []
    called_queue =
        let s =
          fifo.sends writing d.cx.waker (send_frame (data_of ch d.cx (stream_of e) d.buf)) d.channel
            d.with_room d.room in
        ap fifo.queued write_lem.queue
        ∙ s.1
        ∙ ap (λ q. q ++ (send_frame (data_of ch d.cx (stream_of e) d.buf) ∷ [])) d.idle

    ahead_lem : ahead ch fifo l ≡ []
    unfolding frames_of call run
    ahead_lem =
        rw (d.out, d.left)
          (ap (frames_of d.handle.id)
            (fifo.takes (send_frame (data_of ch d.cx (stream_of e) d.buf)) [] _ called_queue))

    behind_lem : ahead ch fifo (flip l) ≡ []
    unfolding frames_of
    behind_lem = rw (d.back, d.right, d.idle_answer) refl

    pub Dialled-Sound : Sound ch fifo l
    unfolding left_side can_read
    Dialled-Sound =
        rw (ahead_lem, behind_lem, left_lem, d.right)
          (
            idle-Dir left_side _ refl (λ p. cc) (ground (arith, answer_lem))
                (ground (arith, answer_lem, write_lem.send, short)) refl answer_lem.1
                (ground (arith, answer_lem)) answer_lem.6 (sym answer_lem.5),
            idle-Dir _ left_side refl (λ p. cc) (ground (arith, write_lem.receive))
                (ground (arith, answer_lem, write_lem.receive)) answer_lem.1 refl
                (ground (arith, write_lem.state)) (rw write_lem.buffer Content.new_lem.0)
                (rw write_lem.buffer (sym Content.new_lem.1)),
          )

  -- The beginnings of a session: both ends hold an opened stream, or one side has just opened it.
  abbrev pub Begun : Link R T C → Type 0
  Begun l = Opened ch fifo l ⊎ Dialled l

  pub Begun-Sound : (l : Link R T C) → Begun l → Sound ch fifo l
  Begun-Sound l (inl o) = Opened-Sound ch fifo push l o
  Begun-Sound l (inr d) = Dialled-Sound l d
