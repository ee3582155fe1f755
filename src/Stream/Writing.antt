-- ===== src/Stream/Writing.antt =====
-- What a write sends, and when a stream counts as acknowledged.
use rust_yamux.Common.{
  ℕ, ◌-◌, ◌≤◌, ◌<◌, ◌≡◌, ◌⊎◌, min, refl, Bool, true, false, some, List, arith, Result, ok, err,
  Poll, ready, pending, take, length, length-take, ◌==◌, Bool-cases, inr, inl, ap, ◌∙◌, subst,
}
use rust_yamux.Common.Words.{u32_max}
use rust_yamux.Error.{write_zero}
use rust_yamux.Frame
use rust_yamux.Frame.Header
use rust_yamux.FlowControl
use rust_yamux.FlowControl.{FlowController}
use rust_yamux.FlowControl.Inv.{windows_lem}
use rust_yamux.Stream.State.{
  State, opened, can_write, next_state, Flag, no_flag, syn_first, ack_first,
}
use rust_yamux.Stream.Shared.{consume_send_window}
use rust_yamux.Stream.Handle.{
  Channel, Stream, Context, writing, poll_write, send_frame, add_flag, write_body, write_some,
}

-- The flag of a frame that owes none: SYN for the first of an outbound stream, ACK for the first of
-- an inbound one.
has_ack : Flag → Bool
has_ack ack_first = true
has_ack _ = false

contains-add_flag :
    (flag : Flag) (id len : ℕ)
    → Header.contains (add_flag flag (Header.data_header id len)).flags Header.ack_flag
      ≡ has_ack flag
unfolding add_flag Header.contains Header.data_header has_ack
contains-add_flag no_flag id len = refl
contains-add_flag syn_first id len = refl
contains-add_flag ack_first id len = refl

-- The state after the frame was queued: a frame that carries ACK acknowledges the stream.
unfoldable pub state_after : Flag → State → State
state_after ack_first st = next_state st (opened true)
state_after _ st = st

module _ {C : Type 0} (ch : Channel C) (cx : Context) where
  -- The number of bytes that a write takes from `buf`.
  abbrev pub accepted : Stream C → List ℕ → ℕ
  accepted s buf = min (min s.shared.flow.send_window (length buf)) cx.config.split_send_size

  abbrev pub data_of : Stream C → List ℕ → Frame.Frame
  data_of s buf = record {
    header = add_flag s.flag (Header.data_header s.id (accepted s buf));
    body = take (accepted s buf) buf;
  }

  -- What `write_body` does with a body of `n` bytes.
  abbrev BodySent : Stream C → List ℕ → ℕ → Type 0
  BodySent s body n =
      let f : Frame.Frame = record {
        header = add_flag s.flag (Header.data_header s.id n);
        body = body;
      } in
      let (r, c) = ch.start_send writing (send_frame f) s.channel in
      write_body ch cx body s ≡ (
        elim r [ ok _ ↦ ready (ok n) | err _ ↦ ready (err write_zero) ],
        record s {
          flag = no_flag;
          channel = c;
          shared = record (s.shared) { state = state_after s.flag s.shared.state };
        },
      )

  write_body_lem :
      (s : Stream C) (body : List ℕ) → length body ≤ u32_max → BodySent s body (length body)
  unfolding write_body state_after has_ack
  write_body_lem s body h = ground (arith, contains-add_flag s.flag s.id (length body))

  -- The three ends of a write once the channel `c` has room.
  abbrev pub Writes : Stream C → C → List ℕ → Poll (Result ℕ ℕ) × Stream C → Type 0
  Writes s c buf out =
      (can_write s.shared.state ≡ false)
        × (out ≡ (ready (err write_zero), record s { channel = c }))
      ⊎ (can_write s.shared.state ≡ true)
        × (s.shared.flow.send_window ≡ 0)
        × (out ≡ (
          pending,
          record s { channel = c; shared = record (s.shared) { writer = some cx.waker } },
        ))
      ⊎ (can_write s.shared.state ≡ true)
        × (0 < s.shared.flow.send_window)
        × (out.0 ≡ (elim (ch.start_send writing (send_frame (data_of s buf)) c).0 [
          | ok _ ↦ ready (ok (accepted s buf))
          | err _ ↦ ready (err write_zero)
        ]))
        × (out.1 ≡ record s {
          flag = no_flag;
          channel = (ch.start_send writing (send_frame (data_of s buf)) c).1;
          shared = record (s.shared) {
            state = state_after s.flag s.shared.state;
            flow = record (s.shared.flow) {
              send_window = s.shared.flow.send_window - accepted s buf;
            };
          };
        })

  write_some_lem :
      (s : Stream C) (buf : List ℕ)
      → s.shared.flow.send_window ≤ u32_max
      → Writes s s.channel buf (write_some ch cx buf s)
  unfolding write_some consume_send_window
  write_some_lem s buf u = elim (Bool-cases (can_write s.shared.state)) [
    | inr q ↦ inl (q, ground (arith, q))
    | inl q ↦ elim (Bool-cases (s.shared.flow.send_window == 0)) [
      | inl z ↦ inr (inl (q, ground arith, ground (arith, q, z)))
      | inr z ↦
          let e : write_some ch cx buf s ≡ write_body ch cx (take k buf) s' =
            ground (arith, q, z, sent) in
          inr (inr (q, ground arith, ap (λ out. out.0) (e ∙ body), ap (λ out. out.1) (e ∙ body)))
    ]
  ]
    where
      k : ℕ
      k = accepted s buf

      same : length (take k buf) ≡ k
      same = omega (arith, length-take k buf)

      fc : FlowController
      fc = record (s.shared.flow) { send_window = s.shared.flow.send_window - k }

      s' : Stream C
      s' = record s { shared = record (s.shared) { flow = fc } }

      body : BodySent s' (take k buf) k
      body =
          subst (BodySent s' (take k buf)) same
            (write_body_lem s' (take k buf) (omega (arith, same)))

      sent : FlowControl.consume_send_window s.shared.flow k ≡ ok fc
      sent = ground (arith, (windows_lem s.shared.flow k).0)

  -- Once the channel has room, a write fails on a stream that cannot be written; waits, with the
  -- writer registered, for credit; or queues one data frame with the first bytes of the buffer, as
  -- many as the send window and the configured frame size allow, takes them off the send window,
  -- and reports their number. The frame carries the flag that the stream owes, and a frame with ACK
  -- acknowledges the stream. It never panics. The send window is a `u32`.
  pub poll_write_lem :
      (s : Stream C) (c : C) (buf : List ℕ)
      → s.shared.flow.send_window ≤ u32_max
      → ch.poll_ready writing cx.waker s.channel ≡ (ready (ok tt), c)
      → Writes s c buf (poll_write ch cx buf s)
  unfolding poll_write
  poll_write_lem s c buf u p = ground (arith, write_some_lem (record s { channel = c }) buf u)
