-- ===== src/Tests/Backlogs.antt =====
-- The backlog of a client that opens a stream and writes to it.
use rust_yamux.Common.{[], ◌∷◌, ◌≤◌}
use rust_yamux.Config
use rust_yamux.Stream.State.{syn_first}
use rust_yamux.Connection.Active
use rust_yamux.Connection.Active.{client, set_shared}
use rust_yamux.Connection.Opening.{poll_new_outbound, ack_backlog}
use rust_yamux.Session.{Call, run}
use rust_yamux.Session.Backlog
use rust_yamux.Session.Backlog.{backlog_bounded}
use rust_yamux.Tests.Connections.{plain, Conn, add_receiver}
use rust_yamux.Tests.Streams.{channel, context}

-- A new client opens a stream, and its user writes.
abbrev fresh_client : Conn
fresh_client = Active.new [] [] Config.default client 0 (λ _. plain)

abbrev asked : Conn
asked = (poll_new_outbound add_receiver 7 0 fresh_client).1

asked-Reach : Backlog.Reach add_receiver channel fresh_client asked
asked-Reach = Backlog.then_step fresh_client asked Backlog.here (Backlog.opened 7 0 fresh_client)

abbrev used_once : Conn
used_once =
    set_shared 0
      (run channel context (Call.write (1 ∷ [])) (record {
        id = 1;
        flag = syn_first;
        channel = [];
        shared = asked.heap 0;
        counter = 0;
      })).0.shared
      asked

used_once-Reach : Backlog.Reach add_receiver channel fresh_client used_once
used_once-Reach =
    Backlog.then_step asked used_once asked-Reach
      (Backlog.used context (Call.write (1 ∷ [])) 0 1 0 syn_first [] asked)

backlog_bounded_example : ack_backlog used_once ≤ 256
backlog_bounded_example =
    backlog_bounded add_receiver channel [] [] Config.default client 0 (λ _. plain) used_once
      used_once-Reach
