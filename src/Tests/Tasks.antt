-- ===== src/Tests/Tasks.antt =====
-- The tasks of the test harness, on a connection that opens every stream at once.
use rust_yamux.Common.{
  ℕ, suc, arith, true, false, Bool, Option, none, some, List, [], ◌∷◌, Poll, ready, pending, ok,
  length,
}
use rust_yamux.Stream.State.{syn_first}
use rust_yamux.Harness.{Peer, Workers}
use rust_yamux.Harness.Laws.{Counted, Responsive}
use rust_yamux.Harness.Opener
use rust_yamux.Harness.Opener.{OpenStreamsClient}
use rust_yamux.Harness.Opener.Opens
use rust_yamux.Harness.Opener.Opens.{opens_all}
use rust_yamux.Harness.Sender
use rust_yamux.Harness.Sender.{MessageSender, Job}
use rust_yamux.Harness.Sender.Counts
use rust_yamux.Harness.Sender.Counts.{sends_all}

-- The state is the identifier of the next stream.
abbrev peer : Peer ℕ
peer = record {
  poll_new_outbound =
      λ n. (ready (ok (record { id = n; address = n; flag = syn_first })), suc (suc n));
  poll_next_inbound = λ n. (pending, n);
  poll_close = λ n. (ready (ok tt), n);
}

peer-Responsive : Responsive peer
peer-Responsive = record { outbound = λ s p. cc; inbound = λ s p. cc; closing = λ s p. cc }

-- Each worker ends when it is polled.
next_job : List Job → Poll (Option (Unit {0})) × List Job
next_job [] = (ready none, [])
next_job (j ∷ js) = (ready (some tt), js)

no_job : List Job → Bool
no_job [] = true
no_job (j ∷ js) = false

abbrev workers : Workers (List Job) Job (Unit {0})
workers = record { push = λ j w. j ∷ w; poll_next = next_job; is_empty = no_job }

workers-Counted : Counted workers
unfolding next_job no_job
workers-Counted = record {
  size = length;
  adds = λ j w. omega arith;
  takes = λ w. ground arith;
  empty = λ w. ground arith;
}

abbrev two_messages : MessageSender ℕ (List Job)
two_messages = Sender.new 1 ((7 ∷ []) ∷ (8 ∷ 9 ∷ []) ∷ []) false []

sends_all_example :
    Counts.Ends peer workers workers-Counted peer-Responsive two_messages
      (Sender.poll peer workers 9 two_messages)
unfolding Sender.new workers-Counted
sends_all_example =
    sends_all peer workers workers-Counted peer-Responsive 9 two_messages (omega arith)

abbrev three_streams : OpenStreamsClient ℕ
three_streams = Opener.new 1 3

opens_all_example : Opens.Ends three_streams (Opener.poll peer 5 three_streams)
unfolding Opener.new
opens_all_example = opens_all peer peer-Responsive 5 three_streams (omega arith)
