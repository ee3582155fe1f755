-- ===== src/Connection/Poll/Sends.antt =====
-- `Active::poll`: the frames that a connection hands to its socket.
pub mod Handlers
pub mod Commands
pub mod Loop
use rust_yamux.Common.{
  ℕ, Option, ◌≡◌, arith, ◌<◌, some, ◌^◌, inr, inl, refl, none, Result, ok, err, Bool, if◌then◌else◌,
  true, false,
}
use rust_yamux.Config.{mib}
use rust_yamux.Action.{Action, no_action, new_stream, ping, terminate}
use rust_yamux.Error.{ConnectionError}
use rust_yamux.Frame.{Frame, protocol_error, internal_error}
use rust_yamux.Frame
use rust_yamux.Frame.Header
use rust_yamux.Frame.Header.{Tag, data_tag, window_update_tag, ping_tag, go_away_tag}
use rust_yamux.Frame.Header.RoundTrip
use rust_yamux.Frame.Io.{WriteResult, ReadResult}
use rust_yamux.Frame.Io.Delivery.{Fits}
use rust_yamux.Rtt
use rust_yamux.Stream.State
use rust_yamux.Connection.Wires.{Next, blocked, ended, item, Receivers, Wire, command_frame}
use rust_yamux.Connection.Active.{Handle, Active, close_at}
use rust_yamux.Connection.Opening.{make_new_inbound_stream, allocate}
use rust_yamux.Connection.Removal.{
  Reply, reset, finish_if, forget_if_closed, on_drop_stream, farewell,
}
use rust_yamux.Connection.Handlers.{
  on_frame, on_ping, on_ack, acknowledge, data_at, window_at, syn_by_data, syn_by_window,
  open_by_data, open_by_window, on_data, on_window_update, dispatch,
}
use rust_yamux.Connection.Branches.{acked, acked_either, on_frame_cases}
use rust_yamux.Connection.Poll.{
  Tick, PollResult, Flow, again, next, leave, and_then, settle, send_pending, send_ping,
  write_ready, write_part, flushed, flush_part, dropped, command, command_part, act, received,
  read_part, turn, poll,
}

-- The codec carries the frame: its header is within the bounds of its fields, and it has the body
-- that the header says, of at most a megabyte.
abbrev pub Carried : Frame → Type 0
Carried f = Fits f.header f.body

abbrev pub MayCarry : Option Frame → Type 0
MayCarry none = Unit {0}
MayCarry (some f) = Carried f

abbrev pub Answered : {S : Type 0} → Action S → Type 0
Answered (ping f) = Carried f
Answered (terminate f) = Carried f
Answered _ = Unit {0}

pub valid :
    {h : Header.Header}
    → h.version ≡ 0
    → h.flags < 16
    → h.stream_id < 2 ^ 32
    → h.length < 2 ^ 32
    → RoundTrip.IsValid h
valid v f i l = record {
  spoken = v;
  flags_u16 = omega (arith, f);
  stream_id_u32 = i;
  length_u32 = l;
}

protocol_error-Carried : Carried protocol_error
unfolding protocol_error Header.protocol_error Header.go_away
protocol_error-Carried = (valid refl (omega arith) (omega arith) (omega arith), inr (λ p. cc, refl))

internal_error-Carried : Carried internal_error
unfolding internal_error Header.internal_error Header.go_away
internal_error-Carried = (valid refl (omega arith) (omega arith) (omega arith), inr (λ p. cc, refl))

ping-Carried : (n : ℕ) → n < 2 ^ 32 → Carried (Frame.ping n)
unfolding Frame.ping Header.syn Header.ping_header
ping-Carried n l = (valid refl (omega arith) (omega arith) l, inr (λ p. cc, refl))

pong-Carried : (n : ℕ) → n < 2 ^ 32 → Carried (Frame.new (Header.ack (Header.ping_header n)))
unfolding Frame.new Header.ack Header.ping_header
pong-Carried n l = (valid refl (omega arith) (omega arith) l, inr (λ p. cc, refl))

pub close_stream-Carried : (id : ℕ) (ack : Bool) → id < 2 ^ 32 → Carried (Frame.close_stream id ack)
unfolding Frame.close_stream Frame.new Header.ack Header.fin Header.data_header
close_stream-Carried id true l =
    (valid refl (omega arith) l (omega arith), inl (refl, refl, omega arith))
close_stream-Carried id false l =
    (valid refl (omega arith) l (omega arith), inl (refl, refl, omega arith))

pub farewell-Carried : (s : State.State) (id : ℕ) → id < 2 ^ 32 → MayCarry (farewell s id)
unfolding farewell Frame.new Header.rst Header.fin Header.data_header
farewell-Carried (State.opened a) id l =
    (valid refl (omega arith) l (omega arith), inl (refl, refl, omega arith))
farewell-Carried State.recv_closed id l =
    (valid refl (omega arith) l (omega arith), inl (refl, refl, omega arith))
farewell-Carried State.send_closed id l = tt
farewell-Carried State.closed id l = tt

pub handle_pong-Answered :
    (nonce now later : ℕ) (r : Rtt.Rtt)
    → r.next_id < 2 ^ 32
    → Answered {S = Handle} (Rtt.handle_pong nonce now later r).0
      × ((Rtt.handle_pong {S = Handle} nonce now later r).1.next_id < 2 ^ 32)
unfolding Rtt.handle_pong
handle_pong-Answered nonce now later r l = ground (arith, l, protocol_error-Carried)

pub next_ping-Carried :
    (now sent : ℕ) (r : Rtt.Rtt)
    → r.next_id < 2 ^ 32
    → MayCarry (Rtt.next_ping now sent r).0 × ((Rtt.next_ping now sent r).1.next_id < 2 ^ 32)
unfolding Rtt.next_ping
next_ping-Carried now sent r l = ground (arith, l, ping-Carried r.next_id l)

abbrev pub Accepts : Result ConnectionError (Action Handle) → Type 0
Accepts (ok a) = Answered a
Accepts (err e) = Unit {0}

-- The answers to a frame.
module _ {R T : Type 0} where
  data_at-Answered : (a : ℕ) (f : Frame) (c : Active R T) → Answered (data_at a f c).0
  unfolding data_at
  data_at-Answered a f c = ground (arith, protocol_error-Carried)

  window_at-Answered : (a : ℕ) (f : Frame) (c : Active R T) → Answered (window_at a f c).0
  unfolding window_at
  window_at-Answered a f c = ground (arith, protocol_error-Carried)

  on_ping-Answered :
      (now later : ℕ) (f : Frame) (c : Active R T)
      → f.header.length < 2 ^ 32
      → c.rtt.next_id < 2 ^ 32
      → Answered (on_ping now later f c).0
  unfolding on_ping
  on_ping-Answered now later f c p l = ground (
    arith,
    (handle_pong-Answered f.header.length now later c.rtt l).0,
    pong-Carried f.header.length p,
  )

  module _ (push : ℕ → ℕ → R → R) where
    syn_by_data-Answered :
        (now : ℕ) (f : Frame) (c : Active R T) → Answered (syn_by_data push now f c).0
    unfolding syn_by_data open_by_data
    syn_by_data-Answered now f c = ground (arith, protocol_error-Carried, internal_error-Carried)

    syn_by_window-Answered :
        (now : ℕ) (f : Frame) (c : Active R T) → Answered (syn_by_window push now f c).0
    unfolding syn_by_window open_by_window
    syn_by_window-Answered now f c = ground (arith, protocol_error-Carried)

    by_flags-Answered :
        (rst syn : Bool) (x : Option ℕ) (f : Frame) (opened : Reply R T)
        (handler : ℕ → Frame → Active R T → Reply R T) (c : Active R T)
        → Answered opened.0
        → ((a : ℕ) → Answered (handler a f c).0)
        → Answered
            (if rst
              then (no_action, reset f.header.stream_id c)
              else if syn
              then opened
              else (elim x as (λ _. Reply R T) [
                | none ↦ (no_action, c)
                | some a ↦ handler a f c
              ])).0
    by_flags-Answered true syn x f opened handler c o k = tt
    by_flags-Answered false true x f opened handler c o k = o
    by_flags-Answered false false none f opened handler c o k = tt
    by_flags-Answered false false (some a) f opened handler c o k = k a

    on_data-Answered : (now : ℕ) (f : Frame) (c : Active R T) → Answered (on_data push now f c).0
    unfolding on_data
    on_data-Answered now f c =
        by_flags-Answered _ _ _ f (syn_by_data push now f c) data_at c
          (syn_by_data-Answered now f c) (λ a. data_at-Answered a f c)

    on_window_update-Answered :
        (now : ℕ) (f : Frame) (c : Active R T) → Answered (on_window_update push now f c).0
    unfolding on_window_update
    on_window_update-Answered now f c =
        by_flags-Answered _ _ _ f (syn_by_window push now f c) window_at c
          (syn_by_window-Answered now f c) (λ a. window_at-Answered a f c)

    dispatch-Accepts :
        (tag : Tag) (now later : ℕ) (f : Frame) (c : Active R T)
        → f.header.length < 2 ^ 32
        → c.rtt.next_id < 2 ^ 32
        → Accepts (dispatch push tag now later f c).0
    unfolding dispatch
    dispatch-Accepts data_tag now later f c p l = on_data-Answered now f c
    dispatch-Accepts window_update_tag now later f c p l = on_window_update-Answered now f c
    dispatch-Accepts ping_tag now later f c p l = on_ping-Answered now later f c p l
    dispatch-Accepts go_away_tag now later f c p l = tt

    ignored_or :
        (b : Bool) (x : Result ConnectionError (Action Handle) × Active R T) (c : Active R T)
        → Accepts x.0
        → Accepts (if b then (ok no_action, c) else x).0
    ignored_or true x c h = tt
    ignored_or false x c h = h

    pub on_frame-Accepts :
        (now later : ℕ) (f : Frame) (c : Active R T)
        → f.header.length < 2 ^ 32
        → (acked f c).rtt.next_id < 2 ^ 32
        → Accepts (on_frame push now later f c).0
    unfolding on_frame
    on_frame-Accepts now later f c p l =
        ignored_or _ (dispatch push f.header.tag now later f (acked f c)) (acked f c)
          (dispatch-Accepts f.header.tag now later f (acked f c) p l)
