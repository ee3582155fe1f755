-- ===== src/Tests/Machines.antt =====
-- connection.rs, closing.rs and cleanup.rs on the client of the other tests.
use rust_yamux.Common.{
  some, All, ℕ, ◌≡◌, refl, arith, none, List, [], ◌∷◌, ◌++◌, length, err, ready, true,
}
use rust_yamux.Error.{closed, too_many_streams}
use rust_yamux.Frame
use rust_yamux.Frame.{Frame}
use rust_yamux.Stream.Handle.{StreamCommand, send_frame, close_stream}
use rust_yamux.Rtt
use rust_yamux.Connection.Active
use rust_yamux.Connection.Active.{client}
use rust_yamux.Connection.Opening.{poll_new_outbound}
use rust_yamux.Connection.Wires.{command_frame, io_wire}
use rust_yamux.Connection.Closing
use rust_yamux.Connection.Closing.Order.{DeliversInOrder, Told, Yields, closes_in_order}
use rust_yamux.Connection.Closing.Sending.{
  wire_bytes, ClosesOnly, given, gone, IoFine, IoFits, io_wire-SendsInOrder,
}
use rust_yamux.Connection.Departure.{Released}
use rust_yamux.Tests.Frames.{pipe, whole, fresh, pipe-TakesInOrder}
use rust_yamux.Connection.Cleanup
use rust_yamux.Connection.Cleanup.Ends.{Finite, Shrinks, cleans_up}
use rust_yamux.Connection.Poll.{Tick}
use rust_yamux.Connection.Poll
use rust_yamux.Connection.Machine.{
  Store, active, ended, new_outbound, next_inbound, cleaned_inbound, poll_close,
}
use rust_yamux.Connection.Machine.Settles.{Settled}
use rust_yamux.Connection.Machine.Settles.Loops.{settles}
use rust_yamux.Connection.Machine.{states}
use rust_yamux.Connection.Machine.Life.{failed_outbound, failed_inbound}
use rust_yamux.Connection.Inv.{IsValid}
use rust_yamux.Connection.Poll.Inv.{poll-IsValid}
use rust_yamux.Tests.Connections.{
  two, two-IsValid, commands, frames, next_command, add_receiver, Conn,
}

abbrev queued : List StreamCommand → List Frame
queued [] = []
queued (c ∷ cs) = command_frame 1 c ∷ queued cs

next_command-Yields : (r : List StreamCommand) → Yields queued length r (next_command r)
next_command-Yields [] = refl
next_command-Yields (c ∷ r) = (refl, omega arith)

commands-DeliversInOrder : DeliversInOrder commands queued length
commands-DeliversInOrder = record {
  close_queued = λ r. refl;
  close_left = λ r. omega arith;
  yields = next_command-Yields;
}

abbrev two_commands : List StreamCommand
two_commands = send_frame (Frame.ping 4) ∷ close_stream true ∷ []

pipe-ClosesOnly : ClosesOnly pipe whole
pipe-ClosesOnly = record { closing = λ t. refl }

all_frames : List Frame
all_frames = (Frame.ping 2 ∷ []) ++ (queued two_commands ++ (Frame.term ∷ []))

all_frames-Fits : All (IoFits 30) all_frames
unfolding all_frames Frame.ping Frame.term Frame.close_stream command_frame Frame.new
all_frames-Fits = ground arith

-- `Io` over a socket that has taken a byte.
closes_in_order_example :
    Told commands
      (io_wire pipe 30)
      queued
      length
      (given whole)
      (gone whole)
      (IoFine 30)
      (IoFits 30)
      commands-DeliversInOrder
      (io_wire-SendsInOrder pipe whole pipe-TakesInOrder pipe-ClosesOnly 30)
      (given whole (fresh (5 ∷ [])) ++ wire_bytes all_frames)
      (Closing.poll commands
        (io_wire pipe 30)
        20
        (Closing.new two_commands (Frame.ping 2 ∷ []) (fresh (5 ∷ []))))
unfolding all_frames
closes_in_order_example =
    closes_in_order commands (io_wire pipe 30) queued length (given whole) (gone whole) (IoFine 30)
      (IoFits 30) commands-DeliversInOrder
      (io_wire-SendsInOrder pipe whole pipe-TakesInOrder pipe-ClosesOnly 30) 20 two_commands
      (Frame.ping 2 ∷ []) (fresh (5 ∷ [])) (tt, omega arith) all_frames-Fits (omega arith)

shrinks : (r : List StreamCommand) → Shrinks length r (next_command r)
shrinks [] = tt
shrinks (c ∷ r) = omega arith

commands-Finite : Finite commands length
commands-Finite = record { close_left = λ r. omega arith; shrinks = shrinks }

cleans_up_example :
    ((Cleanup.poll commands 9 (Cleanup.new two_commands closed)).0 ≡ ready closed)
    × ((Cleanup.poll commands 9 (Cleanup.new two_commands closed)).1.error ≡ none)
cleans_up_example = cleans_up commands length commands-Finite closed 9 two_commands (omega arith)

abbrev pub ticks : ℕ → Tick
ticks n = record { waker = 0; now = 0; sent = 0; later = 0 }

-- A client that may have no streams.
abbrev full : Conn
full = record two { config = record two.config { max_num_streams = 0 } }

failed_outbound_example :
    (st : Store) × (new_outbound add_receiver commands frames ticks 9 2 (active full)
      ≡ (ready (err too_many_streams), ended st))
    × Released full.streams full.heap st.heap st.woken
unfolding Active.new
failed_outbound_example =
    failed_outbound add_receiver commands frames ticks 9 0 length commands-Finite full full
      too_many_streams (omega arith) (unfold poll_new_outbound Active.new in refl)

-- A client with two streams, on one of which a task waits to read; the input is at its end.
abbrev waited : Conn
waited = record two { heap = λ a. record (two.heap a) { reader = some 8 } }

abbrev lost : Conn
lost = (Poll.poll add_receiver commands frames ticks 9 waited).1

failed_inbound_example :
    (st : Store) × (next_inbound add_receiver commands frames ticks 9 2 (active waited)
      ≡ (ready (cleaned_inbound closed), ended st))
    × Released lost.streams lost.heap st.heap st.woken
unfolding Active.new Rtt.next_ping Poll.poll
failed_inbound_example =
    failed_inbound add_receiver commands frames ticks 9 0 length commands-Finite waited lost closed
      (omega arith) refl

poll-IsValid_example : IsValid (Poll.poll add_receiver commands frames ticks 5 two).1
poll-IsValid_example = poll-IsValid add_receiver commands frames ticks 5 two two-IsValid

settles_example :
    Settled (new_outbound add_receiver commands frames ticks 9 states (active full))
    × Settled (next_inbound add_receiver commands frames ticks 9 states (active full))
    × Settled (poll_close add_receiver commands frames ticks 9 states (active full))
settles_example = settles add_receiver commands frames ticks 9 (active full) (λ p. cc)
