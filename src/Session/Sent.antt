-- ===== src/Session/Sent.antt =====
-- The frames that a call queues are frames of the opened stream.
use rust_yamux.Common.{
  ℕ, ◌≡◌, ◌≢◌, refl, Bool, true, false, List, [], ◌∷◌, All, inl, inr, append-nil, arith,
}
use rust_yamux.Frame.{Frame}
use rust_yamux.Frame
use rust_yamux.Frame.Header
use rust_yamux.Stream.State.{Flag, no_flag, syn_first, ack_first}
use rust_yamux.Stream.Handle.{StreamCommand, send_frame, close_stream, add_flag}
use rust_yamux.Connection.Wires.{command_frame}
use rust_yamux.Session.Flight.{bodies, credits, frames_of, Carried, NoFin, FinLast, credit_of}

-- What the queued commands carry.
pub record Queues (id : ℕ) (sent : List StreamCommand) (w : List ℕ) (n : ℕ) : Type 0 where
  pub carried : All (Carried id) (frames_of id sent)
  pub last : FinLast (frames_of id sent)
  pub bytes : bodies (frames_of id sent) ≡ w
  pub credit : credits (frames_of id sent) ≡ n

pub nothing-Queues : (id : ℕ) → Queues id [] [] 0
unfolding frames_of bodies credits
nothing-Queues id = record { carried = tt; last = tt; bytes = refl; credit = refl }

module _ (id : ℕ) where
  single :
      (cmd : StreamCommand)
      → let f = command_frame id cmd in
        Carried id f → Queues id (cmd ∷ []) f.body (credit_of f.header.tag f.header.length)
  unfolding frames_of bodies credits
  single cmd c = record {
    carried = (c, tt);
    last = (λ p. refl, tt);
    bytes = append-nil (command_frame id cmd).body;
    credit = omega arith;
  }

  abbrev data_frame : Flag → ℕ → List ℕ → Frame
  data_frame flag n body = record { header = add_flag flag (Header.data_header id n); body = body }

  pub data-Queues :
      (flag : Flag) (n : ℕ) (body : List ℕ)
      → flag ≢ syn_first
      → Queues id (send_frame (data_frame flag n body) ∷ []) body 0
        × NoFin (frames_of id (send_frame (data_frame flag n body) ∷ []))
  unfolding command_frame add_flag Header.data_header Header.contains Header.ack credit_of frames_of
  data-Queues no_flag n body e = (
    single (send_frame (data_frame no_flag n body))
        (record { names = refl; no_syn = refl; no_rst = refl; shape = inl refl }),
    (refl, tt),
  )
  data-Queues ack_first n body e = (
    single (send_frame (data_frame ack_first n body))
        (record { names = refl; no_syn = refl; no_rst = refl; shape = inl refl }),
    (refl, tt),
  )
  data-Queues syn_first n body e = absurd (e refl)

  abbrev credit_frame : Flag → ℕ → Frame
  credit_frame flag n = record {
    header = add_flag flag (Header.window_update_header id n);
    body = [];
  }

  pub credit-Queues :
      (flag : Flag) (n : ℕ)
      → flag ≢ syn_first
      → Queues id (send_frame (credit_frame flag n) ∷ []) [] n
        × NoFin (frames_of id (send_frame (credit_frame flag n) ∷ []))
  unfolding command_frame add_flag Header.window_update_header Header.contains Header.ack credit_of
      frames_of
  credit-Queues no_flag n e = (
    single (send_frame (credit_frame no_flag n))
        (record { names = refl; no_syn = refl; no_rst = refl; shape = inr (refl, refl, refl) }),
    (refl, tt),
  )
  credit-Queues ack_first n e = (
    single (send_frame (credit_frame ack_first n))
        (record { names = refl; no_syn = refl; no_rst = refl; shape = inr (refl, refl, refl) }),
    (refl, tt),
  )
  credit-Queues syn_first n e = absurd (e refl)

  pub close-Queues : (ack : Bool) → Queues id (close_stream ack ∷ []) [] 0
  unfolding command_frame Frame.close_stream Frame.new Header.data_header Header.contains Header.ack
      Header.fin credit_of
  close-Queues true =
      single (close_stream true)
        (record { names = refl; no_syn = refl; no_rst = refl; shape = inl refl })
  close-Queues false =
      single (close_stream false)
        (record { names = refl; no_syn = refl; no_rst = refl; shape = inl refl })
