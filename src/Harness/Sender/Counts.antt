-- ===== src/Harness/Sender/Counts.antt =====
-- `MessageSender` sends each message once.
use rust_yamux.Common.{
  subst, ℕ, Bool-cases, inl, inr, ap, refl, ◌≢◌, ◌+◌, ◌*◌, ◌≡◌, ◌<◌, List, [], ◌∷◌, length, Option,
  none, some, Result, ok, err, Poll, ready, pending, panicked, stuck, arith, ◌≢◌, refl,
}
use rust_yamux.Common.Words.{checked_add_usize}
use rust_yamux.Error.{ConnectionError}
use rust_yamux.Connection.Active.{Handle}
use rust_yamux.Harness.{Peer, Workers}
use rust_yamux.Harness.Laws.{Took, Counted, Responsive, Turns, run_ends}
use rust_yamux.Harness.Sender.{
  job_of, Msg, MessageSender, Job, Output, Turn, finish, drive, collect, opened, turn, poll, Msg,
}

one_more : (n m : ℕ) → checked_add_usize n 1 ≡ some m → m ≡ n + 1
one_more n m p = ground arith

module _ {S W : Type 0} (peer : Peer S) (workers : Workers W Job (Unit {0})) (k : Counted workers)
    (calm : Responsive peer) where
  -- The messages to be sent, those that are being sent, and those that have been.
  abbrev pub total : MessageSender S W → ℕ
  total c = length c.pending_messages + k.size c.worker_streams + c.streams_processed

  abbrev pub work : MessageSender S W → ℕ
  work c = 2 * length c.pending_messages + k.size c.worker_streams

  -- The ends of a call, from `c`.
  unfoldable pub Ends : MessageSender S W → Output × MessageSender S W → Type 0
  Ends c (ready (ok n), d) =
      (n ≡ total c) × (d.pending_messages ≡ []) × (k.size d.worker_streams ≡ 0)
  Ends c (ready (err e), d) = Unit {0}
  Ends c (pending, d) = total d ≡ total c
  Ends c (panicked, d) = Unit {0}
  Ends c (stuck, d) = ⊥

  carries :
      (c d : MessageSender S W)
      → total d ≡ total c
      → (out : Output × MessageSender S W) → Ends d out
      → Ends c out
  unfolding Ends
  carries c d e (ready (ok n), x) h = ground (arith, h)
  carries c d e (ready (err x), y) h = tt
  carries c d e (pending, x) h = omega (arith, h)
  carries c d e (panicked, x) h = tt
  carries c d e (stuck, x) h = h

  abbrev T : MessageSender S W → Turn S W → Type 0
  T = Turns (turn peer workers) work Ends

  finish_ends :
      (c : MessageSender S W)
      → c.pending_messages ≡ []
      → k.size c.worker_streams ≡ 0
      → (x : Poll (Result ConnectionError (Unit {0})) × S) → x.0 ≢ stuck
      → T c (finish x c)
  unfolding finish Ends
  finish_ends c p q (ready (ok u), s) n = (ground (arith, p, q), p, q)
  finish_ends c p q (ready (err e), s) n = tt
  finish_ends c p q (pending, s) n = refl
  finish_ends c p q (panicked, s) n = tt
  finish_ends c p q (stuck, s) n = n refl

  -- Nothing is taken from the vector in these.
  drive_ends :
      (c d : MessageSender S W)
      → total d ≡ total c
      → (x : Poll (Option (Result ConnectionError Handle)) × S) → x.0 ≢ stuck
      → T c (drive x d)
  unfolding drive Ends
  drive_ends c d e (ready (some (ok h)), s) n = tt
  drive_ends c d e (ready (some (err x)), s) n = tt
  drive_ends c d e (ready none, s) n = tt
  drive_ends c d e (pending, s) n = e
  drive_ends c d e (panicked, s) n = tt
  drive_ends c d e (stuck, s) n = n refl

  collect_ends :
      (c d : MessageSender S W)
      → total d ≡ total c
      → work d ≡ work c
      → (x : Poll (Option (Unit {0})) × W) → Took k.size (k.size d.worker_streams) x
      → T c (collect peer workers x d)
  unfolding collect Ends
  collect_ends c d e w (ready (some u), x) t = go (checked_add_usize d.streams_processed 1) refl
    where
      go :
          (r : Option ℕ)
          → checked_add_usize d.streams_processed 1 ≡ r
          → T c (elim r [
            | none ↦ (some panicked, record d { worker_streams = x })
            | some n ↦ (none, record d { worker_streams = x; streams_processed = n })
          ])
      go none p = tt
      go (some n) p = (
        omega (arith, w, t),
        carries c (record d { worker_streams = x; streams_processed = n })
            (omega (arith, e, t, one_more d.streams_processed n p)),
      )
  collect_ends c d e w (ready none, x) t =
      drive_ends c (record d { worker_streams = x }) (omega (arith, e, t.0, t.1)) _
        (calm.inbound d.connection)
  collect_ends c d e w (pending, x) t =
      drive_ends c (record d { worker_streams = x }) (omega (arith, e, t)) _
        (calm.inbound d.connection)
  collect_ends c d e w (panicked, x) t = tt
  collect_ends c d e w (stuck, x) t = absurd t

  opened_ends :
      (c : MessageSender S W) (m : Msg) (ms : List Msg)
      → c.pending_messages ≡ m ∷ ms
      → (x : Poll (Result ConnectionError Handle) × S) → x.0 ≢ stuck
      → T c (opened peer workers m x (record c { pending_messages = ms }))
  unfolding opened Ends
  opened_ends c m ms e (ready (ok h), s) n =
      let d = record c { pending_messages = ms } in
      let a = k.adds (job_of h m d) c.worker_streams in
      (
        omega (arith, ap length e, a),
        carries c
            (record d {
              connection = s;
              worker_streams = workers.push (job_of h m d) c.worker_streams;
            })
            (omega (arith, ap length e, a)),
      )
  opened_ends c m ms e (ready (err x), s) n = tt
  opened_ends c m ms e (pending, s) n =
      collect_ends c _ (omega (arith, ap length e)) (omega (arith, ap length e)) _
        (k.takes c.worker_streams)
  opened_ends c m ms e (panicked, s) n = tt
  opened_ends c m ms e (stuck, s) n = n refl

  turn_ends : (c : MessageSender S W) → T c (turn peer workers c)
  unfolding turn
  turn_ends c = go c.pending_messages refl
    where
      go : (ms : List Msg) → c.pending_messages ≡ ms → T c (turn peer workers c)
      go [] e = elim (Bool-cases (workers.is_empty c.worker_streams)) [
        | inl q ↦
            let p : finish (peer.poll_close c.connection) c ≡ turn peer workers c = ground arith in
            subst (T c) p
              (finish_ends c e (k.empty c.worker_streams q) _ (calm.closing c.connection))
        | inr q ↦
            let p : collect peer workers (workers.poll_next c.worker_streams) c
                ≡ turn peer workers c =
              ground arith in
            subst (T c) p (collect_ends c c refl refl _ (k.takes c.worker_streams))
      ]
      go (m ∷ ms) e =
          let p : opened peer workers m (peer.poll_new_outbound c.connection)
                (record c { pending_messages = ms })
              ≡ turn peer workers c =
            ground arith in
          subst (T c) p (opened_ends c m ms e _ (calm.outbound c.connection))

  -- A call of `MessageSender::poll` with fuel for two turns for each message and one for each worker
  -- ends. Where it ends with a number, that is the number of messages that were to be sent, were being
  -- sent or had been sent before the call, and none is left; where it is pending, their sum has not
  -- changed. The workers are counted, and the loops of the connection have enough fuel.
  pub sends_all :
      (fuel : ℕ) (c : MessageSender S W) → work c < fuel → Ends c (poll peer workers fuel c)
  unfolding poll
  sends_all fuel c l = run_ends (turn peer workers) work Ends turn_ends fuel c l
