-- ===== src/Connection/Reach.antt =====
-- `Active`: the states that a connection can be in.
use rust_yamux.Common.{ℕ, ◌≢◌, arith, panicked}
use rust_yamux.Config.{Config}
use rust_yamux.Frame.{Frame}
use rust_yamux.Frame.Header.{is_client, is_server}
use rust_yamux.Stream.Shared.{Shared}
use rust_yamux.Connection.StreamMap.{get}
use rust_yamux.Connection.Active.{Mode, Active, new, set_shared}
use rust_yamux.Connection.Opening.{parity, next_stream_id, open_outbound, poll_new_outbound}
use rust_yamux.Connection.Removal.{on_drop_stream}
use rust_yamux.Connection.Handlers.{on_frame}
use rust_yamux.Connection.Inv.{IsValid}
use rust_yamux.Connection.Steps.{
  on_frame-IsValid, on_drop_stream-IsValid, poll_new_outbound-IsValid,
}

module _ {R T : Type 0} (push : ℕ → ℕ → R → R) where
  -- A frame arrives, a stream is asked for, a handle is dropped, or a handle changes its own shared
  -- state.
  pub data Step : Active R T → Active R T → Type 0 where
    framed : (now later : ℕ) (f : Frame) (c : Active R T) → Step c (on_frame push now later f c).1
    opened : (waker now : ℕ) (c : Active R T) → Step c (poll_new_outbound push waker now c).1
    dropped : (id : ℕ) (c : Active R T) → Step c (on_drop_stream id c).1
    used : (a : ℕ) (s : Shared) (c : Active R T) → Step c (set_shared a s c)

  pub data Reach (start : Active R T) : Active R T → Type 0 where
    here : Reach start start
    then_step : (c d : Active R T) → Reach start c → Step c d → Reach start d

  Step-IsValid : (c d : Active R T) → Step c d → IsValid c → IsValid d
  Step-IsValid c _ (framed now later f _) h = on_frame-IsValid push now later f c h
  Step-IsValid c _ (opened waker now _) h = poll_new_outbound-IsValid push waker now c h
  Step-IsValid c _ (dropped id _) h = on_drop_stream-IsValid id c h
  Step-IsValid c _ (used a s _) h = h

  run-IsValid : (start c : Active R T) → IsValid start → Reach start c → IsValid c
  run-IsValid start c h here = h
  run-IsValid start _ h (then_step c d r s) = Step-IsValid c d s (run-IsValid start c h r)

  new-IsValid :
      (receivers : R) (socket : T) (config : Config) (mode : Mode) (now : ℕ) (heap : ℕ → Shared)
      → IsValid (new receivers socket config mode now heap)
  unfolding new parity get is_client is_server
  new-IsValid receivers socket config mode now heap = record {
    within = ground arith;
    next = ground arith;
    allocated = λ i a. ground arith;
    apart = λ i j a. ground arith;
  }

  -- A connection that is reached from a new one, over any sequence of frames, of streams that are
  -- asked for, of dropped handles and of handles that change their shared states, has no more streams
  -- than the configured limit, a next identifier with the parity of its mode, an address in use for
  -- each stream, and no address for two.
  pub Reach-IsValid :
      (receivers : R) (socket : T) (config : Config) (mode : Mode) (now : ℕ) (heap : ℕ → Shared)
      (c : Active R T)
      → Reach (new receivers socket config mode now heap) c
      → IsValid c
  Reach-IsValid receivers socket config mode now heap c r =
      run-IsValid _ c (new-IsValid receivers socket config mode now heap) r

  -- In a connection that is reached from a new one, the assertion on the parity of the identifier
  -- holds when an outbound stream is asked for: the call does not panic.
  pub outbound_opens :
      (receivers : R) (socket : T) (config : Config) (mode : Mode) (now : ℕ) (heap : ℕ → Shared)
      (c : Active R T) (waker later : ℕ)
      → Reach (new receivers socket config mode now heap) c
      → (poll_new_outbound push waker later c).0 ≢ panicked
  unfolding poll_new_outbound open_outbound next_stream_id
  outbound_opens receivers socket config mode now heap c waker later r =
      ground (arith, (Reach-IsValid receivers socket config mode now heap c r).next)
