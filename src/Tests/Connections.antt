-- ===== src/Tests/Connections.antt =====
-- connection.rs and its modules, on a client with one stream, a list of commands and a list of frames.
use rust_yamux.Common.{
  ℕ, ◌≡◌, ◌<◌, refl, arith, none, some, List, [], ◌∷◌, ◌++◌, ok, ready, if◌then◌else◌,
}
use rust_yamux.Config
use rust_yamux.Config.{Config, default_credit}
use rust_yamux.Action.{no_action}
use rust_yamux.Chunks
use rust_yamux.Chunks.Content
use rust_yamux.Frame
use rust_yamux.Frame.{Frame}
use rust_yamux.Frame.Header.{
  is_client, is_server, data_header, window_update_header, contains, fin, syn, rst,
}
use rust_yamux.Stream.State
use rust_yamux.Stream.Shared
use rust_yamux.Stream.Shared.{Shared}
use rust_yamux.Stream.Handle.{StreamCommand}
use rust_yamux.Connection.StreamMap.{get}
use rust_yamux.Connection.Active
use rust_yamux.Connection.Active.{Active, Mode, client, drop_all_streams}
use rust_yamux.Connection.Opening.{parity, poll_new_outbound}
use rust_yamux.Connection.Removal.{on_drop_stream}
use rust_yamux.Connection.Handlers.{is_stream_tag, on_frame, on_data, on_window_update}
use rust_yamux.Connection.Inv.{IsValid}
use rust_yamux.Connection.Reach.{Step, Reach, Reach-IsValid}
use rust_yamux.Connection.Isolation.{Spares, on_frame-Spares}
use rust_yamux.Connection.Delivery.{IsPlain, Delivered, Raised, delivers, raises}
use rust_yamux.Connection.Inbound.{OpensByData, OpensByWindow, opens_by_data, opens_by_window}
use rust_yamux.Connection.Departure.{Left, drop_lem, resets}
use rust_yamux.Connection.Wires.{Next, item, Receivers, Wire}

-- The receivers are the list of the commands of stream 1.
abbrev pub next_command : List StreamCommand → Next × List StreamCommand
next_command [] = (Next.ended, [])
next_command (c ∷ r) = (item 1 (some c), r)

abbrev pub commands : Receivers (List StreamCommand)
commands = record { close_all = λ r. r; poll_next = next_command }

abbrev pub frames : Wire (List Frame)
frames = record {
  poll_ready = λ t. (ready (ok tt), t);
  start_send = λ f t. t ++ (f ∷ []);
  poll_flush = λ t. (ready (ok tt), t);
  poll_close = λ t. (ready (ok tt), t);
  poll_next = λ t. (ready none, t);
}

abbrev pub add_receiver : ℕ → ℕ → List StreamCommand → List StreamCommand
add_receiver id a r = r

-- A stream at the default windows, and a closed one for the free addresses.
abbrev pub plain : Shared
plain = Shared.new default_credit default_credit 0

abbrev pub Conn : Type 0
Conn = Active (List StreamCommand) (List Frame)

abbrev pub start : Conn
start = Active.new [] [] Config.default client 0 (λ _. plain)

-- The client with the streams 1 and 3.
abbrev pub two : Conn
two = record start { next_id = 5; fresh = 2; streams = (1, 0) ∷ (3, 1) ∷ [] }

two_allocated : (i a : ℕ) → get i two.streams ≡ some a → a < 2
unfolding get
two_allocated i a e = ground arith

two_apart : (i j a : ℕ) → get i two.streams ≡ some a → get j two.streams ≡ some a → i ≡ j
unfolding get
two_apart i j a e f = ground arith

pub two-IsValid : IsValid two
unfolding Active.new parity is_client is_server
two-IsValid = record {
  within = omega arith;
  next = refl;
  allocated = two_allocated;
  apart = two_apart;
}

abbrev body_frame : Frame
body_frame = record { header = data_header 1 3; body = 7 ∷ 8 ∷ 9 ∷ [] }

body_frame-IsPlain : IsPlain body_frame
unfolding contains data_header
body_frame-IsPlain = record { no_syn = refl; no_ack = refl; no_rst = refl }

-- The data of stream 1 leaves stream 3 alone.
on_frame-Spares_example : Spares 3 1 two (on_frame add_receiver 0 0 body_frame two).1
on_frame-Spares_example =
    on_frame-Spares 3 1 add_receiver 0 0 body_frame two two-IsValid
      (unfold data_header in λ e. ground arith) (unfold get in refl)

delivers_example : Delivered body_frame 0 two (on_frame add_receiver 0 0 body_frame two)
unfolding Active.new
delivers_example =
    delivers add_receiver 0 0 body_frame two 0 body_frame-IsPlain (unfold data_header in refl)
      (unfold get data_header in refl) (unfold Shared.new in Chunks.Content.new_lem.0) (omega arith)

abbrev credit_frame : Frame
credit_frame = Frame.window_update 1 5

credit_frame-IsPlain : IsPlain credit_frame
unfolding contains window_update_header Frame.window_update
credit_frame-IsPlain = record { no_syn = refl; no_ack = refl; no_rst = refl }

raises_example : Raised credit_frame 0 two (on_frame add_receiver 0 0 credit_frame two)
raises_example =
    raises add_receiver 0 0 credit_frame two 0 credit_frame-IsPlain
      (unfold Frame.window_update window_update_header in refl)
      (unfold get Frame.window_update window_update_header in refl)

-- The remote, a server, opens stream 2 with three bytes.
abbrev syn_frame : Frame
syn_frame = record { header = syn (data_header 2 3); body = 7 ∷ 8 ∷ 9 ∷ [] }

opens_by_data_example : OpensByData syn_frame two (on_data add_receiver 0 syn_frame two)
opens_by_data_example =
    opens_by_data add_receiver 0 syn_frame two (unfold contains syn data_header in refl)
      (unfold contains syn data_header in refl)

abbrev syn_credit : Frame
syn_credit = record { header = syn (window_update_header 2 5); body = [] }

opens_by_window_example :
    OpensByWindow syn_credit two (on_window_update add_receiver 0 syn_credit two)
opens_by_window_example =
    opens_by_window add_receiver 0 syn_credit two (unfold contains syn window_update_header in refl)
      (unfold contains syn window_update_header in refl)

abbrev rst_frame : Frame
rst_frame = Frame.new (rst (data_header 1 0))

resets_example :
    ((on_frame add_receiver 0 0 rst_frame two).0 ≡ ok no_action)
    × Left 1 0 two (on_frame add_receiver 0 0 rst_frame two).1
unfolding Frame.new rst data_header
resets_example =
    resets add_receiver 0 0 rst_frame two 0 (unfold contains rst data_header Frame.new in refl)
      (unfold contains rst data_header Frame.new in refl)
      (unfold contains rst data_header Frame.new in refl)
      (unfold is_stream_tag rst data_header Frame.new in refl)
      (unfold get rst data_header Frame.new in refl)

abbrev late_frame : Frame
late_frame = record { header = data_header 9 1; body = 7 ∷ [] }

drop_lem_example :
    Left 1 0 two (on_drop_stream 1 two).1
    × ((on_drop_stream 1 two).0 ≡ (
        if State.can_write (two.heap 0).state
        then (if State.can_read (two.heap 0).state
            then some (Frame.new (rst (data_header 1 0)))
            else some (Frame.new (fin (data_header 1 0))))
        else none))
drop_lem_example = drop_lem 1 0 two (unfold get in refl)

-- A stream is asked for, data for it arrives, and it is dropped.
abbrev after_open : Conn
after_open = (poll_new_outbound add_receiver 0 0 start).1

abbrev after_data : Conn
after_data = (on_frame add_receiver 0 0 body_frame after_open).1

abbrev after_drop : Conn
after_drop = (on_drop_stream 1 after_data).1

history : Reach add_receiver start after_drop
history =
    Reach.then_step after_data after_drop
      (Reach.then_step after_open after_data
        (Reach.then_step start after_open Reach.here (Step.opened 0 0 start))
        (Step.framed 0 0 body_frame after_open))
      (Step.dropped 1 after_data)

Reach-IsValid_example : IsValid after_drop
Reach-IsValid_example =
    Reach-IsValid add_receiver [] [] Config.default client 0 (λ _. plain) after_drop history
