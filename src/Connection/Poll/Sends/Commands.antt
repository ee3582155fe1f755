-- ===== src/Connection/Poll/Sends/Commands.antt =====
-- connection/stream.rs: the commands that a stream hands to its connection, and their frames.
use rust_yamux.Common.{
  ℕ, List, ◌⊎◌, ◌≤◌, ◌<◌, ◌^◌, length, [], inl, arith, ◌≡◌, inr, subst, refl, sym, true, min, false,
  take, length-take, Result, Option, err, Returns, ok, some, none,
}
use rust_yamux.Config.{mib}
use rust_yamux.Error.{ConnectionError}
use rust_yamux.FlowControl.{FlowController}
use rust_yamux.Frame.{Frame}
use rust_yamux.Frame
use rust_yamux.Frame.Header
use rust_yamux.FlowControl
use rust_yamux.FlowControl.Inv.{Inv, Updated, next_window_update-Updated}
use rust_yamux.Chunks
use rust_yamux.Stream.State.{Flag, no_flag, syn_first, ack_first}
use rust_yamux.Stream.Shared.{Shared, consume_send_window}
use rust_yamux.Stream.Handle.{
  StreamCommand, send_frame, close_stream, Half, writing, updating, Channel, Stream, Context,
  add_flag, send_window_update, write_body, write_some, poll_write, poll_close, poll_flush,
}
use rust_yamux.Connection.Wires.{command_frame}
use rust_yamux.Connection.Poll.Sends.{Carried, valid, close_stream-Carried}

-- A data frame with as many bytes as its header says, at most `split`.
abbrev pub IsData : ℕ → Frame → Type 0
IsData split f =
    (flag : Flag) × (id : ℕ) × (body : List ℕ) × (id < 2 ^ 32)
    × (length body ≤ split)
    × (f ≡ record { header = add_flag flag (Header.data_header id (length body)); body = body })

-- A window update for a credit that is a `u32`.
abbrev pub IsCredit : Frame → Type 0
IsCredit f =
    (flag : Flag) × (id : ℕ) × (credit : ℕ) × (id < 2 ^ 32)
    × (credit < 2 ^ 32)
    × (f ≡ record { header = add_flag flag (Header.window_update_header id credit); body = [] })

-- The commands of a stream whose writes are split into pieces of at most `split` bytes.
abbrev pub Commanded : ℕ → StreamCommand → Type 0
Commanded split (close_stream ack) = Unit {0}
Commanded split (send_frame f) = IsData split f ⊎ IsCredit f

data-Carried :
    (flag : Flag) (id : ℕ) (body : List ℕ)
    → id < 2 ^ 32
    → length body ≤ mib
    → Carried (record { header = add_flag flag (Header.data_header id (length body)); body = body })
unfolding add_flag Header.syn Header.ack Header.data_header
data-Carried no_flag id body l m =
    (valid refl (omega arith) l (omega (arith, m)), inl (refl, refl, m))
data-Carried syn_first id body l m =
    (valid refl (omega arith) l (omega (arith, m)), inl (refl, refl, m))
data-Carried ack_first id body l m =
    (valid refl (omega arith) l (omega (arith, m)), inl (refl, refl, m))

credit-Carried :
    (flag : Flag) (id credit : ℕ)
    → id < 2 ^ 32
    → credit < 2 ^ 32
    → Carried (record { header = add_flag flag (Header.window_update_header id credit); body = [] })
unfolding add_flag Header.syn Header.ack Header.window_update_header
credit-Carried no_flag id credit l m = (valid refl (omega arith) l m, inr (λ p. cc, refl))
credit-Carried syn_first id credit l m = (valid refl (omega arith) l m, inr (λ p. cc, refl))
credit-Carried ack_first id credit l m = (valid refl (omega arith) l m, inr (λ p. cc, refl))

-- The frame of a command is one that the codec carries, where a piece is at most a megabyte.
pub command-Carried :
    (split id : ℕ) (cmd : StreamCommand)
    → split ≤ mib
    → id < 2 ^ 32
    → Commanded split cmd
    → Carried (command_frame id cmd)
unfolding command_frame
command-Carried split id (close_stream ack) s l c = close_stream-Carried id ack l
command-Carried split id (send_frame f) s l (inl (flag, i, body, m, n, e)) =
    subst Carried (sym e) (data-Carried flag i body m (omega (arith, n, s)))
command-Carried split id (send_frame f) s l (inr (flag, i, credit, m, n, e)) =
    subst Carried (sym e) (credit-Carried flag i credit m n)

-- `Fine` says of a channel that it was handed only such commands.
pub record TakesCommands {C : Type 0} (ch : Channel C) (split : ℕ) (Fine : C → Type 0)
    : Type 0 where
  pub readies : (half : Half) (w : ℕ) (c : C) → Fine c → Fine (ch.poll_ready half w c).1
  pub starts :
      (half : Half) (cmd : StreamCommand) (c : C)
      → Commanded split cmd
      → Fine c
      → Fine (ch.start_send half cmd c).1
  pub flushes : (w : ℕ) (c : C) → Fine c → Fine (ch.poll_flush w c).1

module _ {C : Type 0} (ch : Channel C) (cx : Context) (Fine : C → Type 0)
    (takes : TakesCommands ch cx.config.split_send_size Fine) (s : Stream C) (l : s.id < 2 ^ 32)
    (fine : Fine s.channel) where
  close_Fine : Fine (poll_close ch cx s).1.channel
  unfolding poll_close
  close_Fine =
      let ready_fine = takes.readies writing cx.waker s.channel fine in
      let c = (ch.poll_ready writing cx.waker s.channel).1 in
      ground (
        arith,
        fine,
        ready_fine,
        takes.starts writing (close_stream true) c tt ready_fine,
        takes.starts writing (close_stream false) c tt ready_fine,
      )

  body_Fine :
      (t : Stream C) (body : List ℕ)
      → t.id < 2 ^ 32
      → length body ≤ cx.config.split_send_size
      → Fine t.channel
      → Fine (write_body ch cx body t).1.channel
  unfolding write_body Frame.data_frame
  body_Fine t body i m g =
      let h : Header.Header = add_flag t.flag (Header.data_header t.id (length body)) in
      ground (
        arith,
        g,
        takes.starts writing (send_frame (record { header = h; body = body })) t.channel
            (inl (t.flag, t.id, body, i, m, refl)) g,
      )

  some_Fine :
      (t : Stream C) (buf : List ℕ)
      → t.id < 2 ^ 32
      → Fine t.channel
      → Fine (write_some ch cx buf t).1.channel
  unfolding write_some
  some_Fine t buf i g = go (consume_send_window t.shared k) refl
    where
      k : ℕ
      k = min (min t.shared.flow.send_window (length buf)) cx.config.split_send_size

      go :
          (r : Result ConnectionError Shared)
          → consume_send_window t.shared k ≡ r
          → Fine (write_some ch cx buf t).1.channel
      go (err x) e = ground (arith, e, g)
      go (ok sh) e =
          let m : length (take k buf) ≤ cx.config.split_send_size =
            omega (arith, length-take k buf) in
          ground (arith, e, g, body_Fine (record t { shared = sh }) (take k buf) i m g)

  write_Fine : (buf : List ℕ) → Fine (poll_write ch cx buf s).1.channel
  unfolding poll_write
  write_Fine buf =
      let c = (ch.poll_ready writing cx.waker s.channel).1 in
      let ready_fine = takes.readies writing cx.waker s.channel fine in
      ground (arith, ready_fine, some_Fine (record s { channel = c }) buf l ready_fine)

  update_Fine :
      Inv cx.config cx.rtt s.counter s.shared.flow (Chunks.len s.shared.buffer)
      → Fine (send_window_update ch cx s).1.channel
  unfolding send_window_update
  update_Fine v =
      go
        (FlowControl.next_window_update cx.config cx.rtt cx.now cx.later s.counter s.shared.flow
          (Chunks.len s.shared.buffer))
        refl
        (next_window_update-Updated cx.config cx.rtt cx.now cx.later s.counter s.shared.flow
          (Chunks.len s.shared.buffer) v)
    where
      c : C
      c = (ch.poll_ready updating cx.waker s.channel).1

      go :
          (r : Option (Option ℕ × ℕ × FlowController))
          → FlowControl.next_window_update cx.config cx.rtt cx.now cx.later s.counter s.shared.flow
              (Chunks.len s.shared.buffer)
            ≡ r
          → Returns
              (Updated cx.config cx.rtt cx.later s.counter s.shared.flow
                (Chunks.len s.shared.buffer))
              r
          → Fine (send_window_update ch cx s).1.channel
      go none e u = ground (arith, e, fine, takes.readies updating cx.waker s.channel fine)
      go (some (none, acc, fc)) e u =
          ground (arith, e, fine, takes.readies updating cx.waker s.channel fine)
      go (some (some credit, acc, fc)) e u =
          let n : credit < 2 ^ 32 = ground (arith, u) in
          let h : Header.Header = add_flag s.flag (Header.window_update_header s.id credit) in
          let ready_fine = takes.readies updating cx.waker s.channel fine in
          ground (
            arith,
            e,
            fine,
            ready_fine,
            takes.starts updating (send_frame (record { header = h; body = [] })) c
                (inr (s.flag, s.id, credit, l, n, refl)) ready_fine,
          )

  flush_Fine : Fine (poll_flush ch cx s).1.channel
  unfolding poll_flush
  flush_Fine = takes.flushes cx.waker s.channel fine

  -- A stream whose identifier is a `u32` and whose flow controller meets its invariant hands its
  -- channel only commands of the kinds that `Commanded` lists: data frames with a body of at most
  -- `split_send_size` bytes, window updates for a `u32`, and closes.
  pub stream_commands :
      (buf : List ℕ)
      → Inv cx.config cx.rtt s.counter s.shared.flow (Chunks.len s.shared.buffer)
      → Fine (poll_write ch cx buf s).1.channel
        × Fine (poll_close ch cx s).1.channel
        × Fine (poll_flush ch cx s).1.channel
        × Fine (send_window_update ch cx s).1.channel
  stream_commands buf v = (write_Fine buf, close_Fine, flush_Fine, update_Fine v)
