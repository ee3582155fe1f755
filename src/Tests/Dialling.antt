-- ===== src/Tests/Dialling.antt =====
-- A client opens a stream to a server and writes three bytes; the server reads two.
use rust_yamux.Common.{ℕ, refl, inr, List, [], ◌∷◌, arith}
use rust_yamux.Config
use rust_yamux.Stream.State.{syn_first, ack_first}
use rust_yamux.Connection.Active
use rust_yamux.Connection.Active.{Mode, client, server, Active, Handle}
use rust_yamux.Connection.Opening.{poll_new_outbound}
use rust_yamux.Connection.Handlers.{on_frame}
use rust_yamux.Connection.Opening.{ack_backlog, next_stream_id}
use rust_yamux.Connection.Handlers.{is_valid_remote_id}
use rust_yamux.Stream.Handle.{add_flag}
use rust_yamux.Frame.Header.{data_header}
use rust_yamux.Connection.StreamMap.{get}
use rust_yamux.Session.{Call, call}
use rust_yamux.Session.Link
use rust_yamux.Session.Link.{Link, Reach, flip, ahead}
use rust_yamux.Session.Dialled.{Dialled, asked, frame_of}
use rust_yamux.Session.Transfer.{Conveys, in_order}
use rust_yamux.Tests.Connections.{plain, Conn, add_receiver}
use rust_yamux.Tests.Streams.{channel, context}
use rust_yamux.Tests.Sessions.{L, fifo}

abbrev idle : Mode → Conn
idle mode = Active.new [] [] Config.default mode 0 (λ _. plain)

abbrev client_conn : Conn
client_conn = (poll_new_outbound add_receiver 7 0 (idle client)).1

abbrev client_handle : Handle
client_handle = record { id = 1; address = 0; flag = syn_first }

abbrev bytes : List ℕ
bytes = 1 ∷ 2 ∷ 3 ∷ []

abbrev dialled : L
dialled = record {
  left =
      (let e =
          call channel context (Call.write bytes)
            (asked channel fifo add_receiver client_conn client_handle []) in
        record e { channel = fifo.taken e.channel });
  right =
      asked channel fifo add_receiver
        (on_frame add_receiver 0 0
          (frame_of channel fifo add_receiver context bytes
            (asked channel fifo add_receiver client_conn client_handle []))
          (idle server)).1
        (record { id = 1; address = 0; flag = ack_first }) [];
  out = [];
  back = [];
}

dialled-Dialled : Dialled channel fifo add_receiver dialled
unfolding fifo Active.new poll_new_outbound ack_backlog next_stream_id is_valid_remote_id add_flag
    data_header get
dialled-Dialled = record {
  caller = idle client;
  callee = idle server;
  conn = client_conn;
  handle = client_handle;
  channel = [];
  with_room = [];
  answer = [];
  cx = context;
  buf = bytes;
  waker = 7;
  now = 0;
  later = 0;
  dials = refl;
  room = refl;
  idle = refl;
  idle_answer = refl;
  admits = (refl, refl, λ p. ground arith);
  left = refl;
  right = refl;
  out = refl;
  back = refl;
}

abbrev read_two : L
read_two = record dialled { right = call channel context (Call.read 2) dialled.right }

read_two-Reach : Reach channel fifo add_receiver dialled read_two
read_two-Reach =
    Link.then_step dialled read_two Link.here
      (Link.flipped (flip dialled) _ (Link.called context (Call.read 2) (flip dialled)))

in_order_example :
    Conveys read_two.left read_two.right (ahead channel fifo read_two)
    × Conveys read_two.right read_two.left (ahead channel fifo (flip read_two))
in_order_example =
    in_order channel fifo add_receiver dialled read_two (inr dialled-Dialled) read_two-Reach
