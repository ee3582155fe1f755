-- ===== src/Connection/Isolation.antt =====
-- `Active`: a frame for one stream leaves every other stream as it was.
use rust_yamux.Common.{ℕ, ◌≡◌, ◌≢◌, refl, Bool, true, false, arith, some, ◌∙◌, ap}
use rust_yamux.Frame.{Frame}
use rust_yamux.Connection.Steps.{acked-IsValid}
use rust_yamux.Connection.StreamMap.{get, get-remove, get-insert}
use rust_yamux.Connection.Active.{Active, close_at}
use rust_yamux.Connection.Opening.{make_new_inbound_stream, allocate}
use rust_yamux.Connection.Removal.{on_drop_stream, reset, finish_if, forget_if_closed}
use rust_yamux.Connection.Handlers.{
  on_frame, data_at, on_ack, window_at, on_ping, syn_by_data, syn_by_window, acknowledge,
  open_by_data, open_by_window,
}
use rust_yamux.Connection.Branches.{acked, acked_either, on_frame_cases}
use rust_yamux.Connection.Inv.{IsValid}

module _ {R T : Type 0} (j b : ℕ) where
  -- The stream `j` at `b` is still there, and its shared state is unchanged.
  abbrev pub Spares : Active R T → Active R T → Type 0
  Spares c c' = (get j c'.streams ≡ some b) × (c'.heap b ≡ c.heap b)

  reset-Spares :
      (id : ℕ) (c : Active R T)
      → IsValid c
      → j ≢ id
      → get j c.streams ≡ some b
      → Spares c (reset id c)
  unfolding reset close_at
  reset-Spares id c h n e = ground (arith, get-remove j id c.streams, h.apart j id b)

  other :
      (c : Active R T) {id : ℕ}
      → IsValid c
      → j ≢ id
      → get j c.streams ≡ some b
      → (a : ℕ) → get id c.streams ≡ some a
      → a ≢ b
  other c h n e a p q = n (h.apart j _ b e (p ∙ ap some q))

  finish_if-Spares :
      (x : Bool) (a : ℕ) (c : Active R T) → a ≢ b → (finish_if x a c).heap b ≡ c.heap b
  unfolding finish_if
  finish_if-Spares true a c n = ground arith
  finish_if-Spares false a c n = refl

  on_ack-Spares :
      (id : ℕ) (c : Active R T)
      → IsValid c
      → j ≢ id
      → get j c.streams ≡ some b
      → Spares c (on_ack id c)
  unfolding on_ack acknowledge
  on_ack-Spares id c h n e = ground (arith, h.apart j id b)

  data_at-Spares :
      (a : ℕ) (f : Frame) (c : Active R T)
      → a ≢ b
      → j ≢ f.header.stream_id
      → get j c.streams ≡ some b
      → Spares c (data_at a f c).1
  unfolding data_at finish_if forget_if_closed
  data_at-Spares a f c m n e = ground (arith, get-remove j f.header.stream_id c.streams)

  window_at-Spares :
      (a : ℕ) (f : Frame) (c : Active R T)
      → a ≢ b
      → j ≢ f.header.stream_id
      → get j c.streams ≡ some b
      → Spares c (window_at a f c).1
  unfolding window_at finish_if forget_if_closed
  window_at-Spares a f c m n e = ground (arith, get-remove j f.header.stream_id c.streams)

  on_ping-Spares :
      (now later : ℕ) (f : Frame) (c : Active R T)
      → get j c.streams ≡ some b
      → Spares c (on_ping now later f c).1
  unfolding on_ping
  on_ping-Spares now later f c e = ground arith

  on_drop_stream-Spares :
      (id : ℕ) (c : Active R T)
      → IsValid c
      → j ≢ id
      → get j c.streams ≡ some b
      → Spares c (on_drop_stream id c).1
  unfolding on_drop_stream close_at
  on_drop_stream-Spares id c h n e = ground (arith, get-remove j id c.streams, h.apart j id b)

  module _ (push : ℕ → ℕ → R → R) where
    syn_by_data-Spares :
        (now : ℕ) (f : Frame) (c : Active R T)
        → IsValid c
        → j ≢ f.header.stream_id
        → get j c.streams ≡ some b
        → Spares c (syn_by_data push now f c).1
    unfolding syn_by_data open_by_data make_new_inbound_stream allocate finish_if
    syn_by_data-Spares now f c h n e =
        ground (arith, get-insert j f.header.stream_id c.fresh c.streams, h.allocated j b e)

    syn_by_window-Spares :
        (now : ℕ) (f : Frame) (c : Active R T)
        → IsValid c
        → j ≢ f.header.stream_id
        → get j c.streams ≡ some b
        → Spares c (syn_by_window push now f c).1
    unfolding syn_by_window open_by_window make_new_inbound_stream allocate finish_if
    syn_by_window-Spares now f c h n e =
        ground (arith, get-insert j f.header.stream_id c.fresh c.streams, h.allocated j b e)

    -- In a valid connection, a frame leaves each stream other than the one it names in the map, at
    -- its address, with its shared state as it was.
    pub on_frame-Spares :
        (now later : ℕ) (f : Frame) (c : Active R T)
        → IsValid c
        → j ≢ f.header.stream_id
        → get j c.streams ≡ some b
        → Spares c (on_frame push now later f c).1
    on_frame-Spares now later f c h n e =
        let c' = acked f c in
        let v = acked-IsValid push f c h in
        let p = acked_either (Spares c) f c (e, refl) (on_ack-Spares f.header.stream_id c h n e) in
        let q = on_frame_cases (Spares c') f push now later c (record {
          same = (p.0, refl);
          rst = reset-Spares f.header.stream_id c' v n p.0;
          syn_data = syn_by_data-Spares now f c' v n p.0;
          syn_window = syn_by_window-Spares now f c' v n p.0;
          data_frame = λ a g. data_at-Spares a f c' (other c' v n p.0 a g) n p.0;
          window_update = λ a g. window_at-Spares a f c' (other c' v n p.0 a g) n p.0;
          ping = on_ping-Spares now later f c' p.0;
        }) in
        (q.0, q.1 ∙ p.1)
