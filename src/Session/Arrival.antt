-- ===== src/Session/Arrival.antt =====
-- What a frame of the opened stream does to the connection that it arrives at.
use rust_yamux.Common.{
  ℕ, ◌+◌, ◌≡◌, ◌≤◌, ◌⊎◌, Bool, true, false, ◌&&◌, ◌++◌, length, none, some, if◌then◌else◌, arith,
  inl, inr, ok, ap, ◌∙◌, subst, Result, sym, [], append-nil,
}
use rust_yamux.Common.Words.{u32_max}
use rust_yamux.Action.{Action, no_action}
use rust_yamux.Error.{ConnectionError}
use rust_yamux.Chunks.Content
use rust_yamux.Frame.{Frame}
use rust_yamux.Frame.Header.{contains, ack_flag, data_tag, window_update_tag}
use rust_yamux.FlowControl.{FlowController}
use rust_yamux.Connection.Delivery.{is_closed}
use rust_yamux.Stream.State.{State, next_state, can_read, can_write}
use rust_yamux.Stream.Shared.{Shared}
use rust_yamux.Connection.StreamMap.{get, contains_key}
use rust_yamux.Connection.Active.{Active, Handle}
use rust_yamux.Connection.Handlers.{
  on_frame, on_ack, acknowledge, is_stream_tag, dispatch, on_data, on_window_update, data_at,
  window_at,
}
use rust_yamux.Connection.Delivery.{data_at_lem, window_at_lem, Delivered, Raised, after_fin}
use rust_yamux.Session.Flight.{Carried, has_fin, credit_of}

-- The shared state after the arrival of `f`.
pub record Arrived (f : Frame) (s s' : Shared) : Type 0 where
  pub send : s'.flow.send_window ≡ s.flow.send_window + credit_of f.header.tag f.header.length
  pub receive : s'.flow.receive_window + length f.body ≡ s.flow.receive_window
  pub unread : Content.content s'.buffer ≡ Content.content s.buffer ++ f.body
  pub buffer : Content.IsValid s'.buffer
  pub writes : can_write s'.state ≡ can_write s.state
  pub reads : has_fin f ≡ false → can_read s'.state ≡ can_read s.state

-- What an ACK alone changes.
record Acked (s s' : Shared) : Type 0 where
  flow : s'.flow ≡ s.flow
  buffer : s'.buffer ≡ s.buffer
  writes : can_write s'.state ≡ can_write s.state
  reads : can_read s'.state ≡ can_read s.state

module _ {R T : Type 0} (push : ℕ → ℕ → R → R) (now later : ℕ) (f : Frame) (c : Active R T)
    (id a : ℕ) (carried : Carried id f) where
  abbrev acked : Active R T
  acked =
      if contains f.header.flags ack_flag && is_stream_tag f.header.tag
      then on_ack f.header.stream_id c
      else c

  acked-streams : acked.streams ≡ c.streams
  unfolding on_ack acknowledge
  acked-streams = ground arith

  acked_lem : Acked (c.heap a) (acked.heap a)
  unfolding on_ack acknowledge next_state can_read can_write
  acked_lem = record {
    flow = ground arith;
    buffer = ground arith;
    writes = ground arith;
    reads = ground arith;
  }

  fin_writes : (fin : Bool) (st : State) → can_write (after_fin fin st) ≡ can_write st
  unfolding can_write next_state
  fin_writes fin st = ground arith

  -- The entry of the stream in the map is found by the frame.
  module _ (e : get id c.streams ≡ some a) where
    found : get f.header.stream_id acked.streams ≡ some a
    found = ap (get f.header.stream_id) acked-streams ∙ ap (λ i. get i c.streams) carried.names ∙ e

    runs_data :
        f.header.tag ≡ data_tag
        → on_frame push now later f c ≡ (ok (data_at a f acked).0, (data_at a f acked).1)
    unfolding on_frame is_stream_tag contains_key dispatch on_data
    runs_data t = ground (arith, found, carried.no_syn, carried.no_rst)

    runs_window :
        f.header.tag ≡ window_update_tag
        → on_frame push now later f c ≡ (ok (window_at a f acked).0, (window_at a f acked).1)
    unfolding on_frame is_stream_tag contains_key dispatch on_window_update
    runs_window t = ground (arith, found, carried.no_syn, carried.no_rst)

    abbrev Arrives : Result ConnectionError (Action Handle) × Active R T → Type 0
    Arrives (r, c') =
        (r ≡ ok no_action)
        × Arrived f (c.heap a) (c'.heap a)
        × ((get id c'.streams ≡ some a)
            ⊎ (has_fin f ≡ true)
              × (get id c'.streams ≡ none)
              × (can_write (c'.heap a).state ≡ false))

    module _ (v : Content.IsValid (c.heap a).buffer)
        (l : length f.body ≤ (c.heap a).flow.receive_window)
        (u : (c.heap a).flow.receive_window ≤ u32_max)
        (w : (c.heap a).flow.send_window + credit_of f.header.tag f.header.length ≤ u32_max) where
      still_there :
          (c' : Active R T)
          → get f.header.stream_id c'.streams
            ≡ (if has_fin f && is_closed (c'.heap a).state then none else some a)
          → (get id c'.streams ≡ some a)
            ⊎ (has_fin f ≡ true)
              × (get id c'.streams ≡ none)
              × (can_write (c'.heap a).state ≡ false)
      unfolding is_closed can_write
      still_there c' p = ground (arith, p, carried.names)

      from_data :
          {r : Result ConnectionError (Action Handle)} {c' : Active R T}
          → f.header.tag ≡ data_tag
          → Delivered f a acked (r, c')
          → Arrives (r, c')
      unfolding credit_of
      from_data {r} {c'} t
            (inl (fits, ended, (content, valid, receive, state, reader, send), woken, entry)) =
          (
            ended,
            record {
              send = ground (arith, send, t, acked_lem.flow);
              receive =
                  omega (
                    arith,
                    receive,
                    ap (λ (fc : FlowController). fc.receive_window) acked_lem.flow,
                  );
              unread = content ∙ ap (λ b. Content.content b ++ f.body) acked_lem.buffer;
              buffer = valid;
              writes = ap can_write state ∙ fin_writes (has_fin f) _ ∙ acked_lem.writes;
              reads = λ p.
                  ap can_read state
                  ∙ ap (λ b. can_read (after_fin b (acked.heap a).state)) p
                  ∙ acked_lem.reads;
            },
            still_there c' entry,
          )
      from_data t (inr (big, ended, kept)) =
          absurd
            (omega (arith, big, ap (λ (fc : FlowController). fc.receive_window) acked_lem.flow))

      from_window :
          {r : Result ConnectionError (Action Handle)} {c' : Active R T}
          → f.header.tag ≡ window_update_tag
          → f.body ≡ []
          → has_fin f ≡ false
          → Raised f a acked (r, c')
          → Arrives (r, c')
      unfolding credit_of
      from_window {r} {c'} t b n
            (inl (fits, ended, (send, state, buffer, writer, reader, receive), woken, entry)) =
          (
            ended,
            record {
              send = ground (arith, send, t, acked_lem.flow);
              receive = ground (arith, receive, b, acked_lem.flow);
              unread =
                  ap Content.content (buffer ∙ acked_lem.buffer)
                  ∙ sym (append-nil _)
                  ∙ ap (λ x. Content.content (c.heap a).buffer ++ x) (sym b);
              buffer = rw (buffer ∙ acked_lem.buffer) v;
              writes = ap can_write state ∙ fin_writes (has_fin f) _ ∙ acked_lem.writes;
              reads = λ p.
                  ap can_read state
                  ∙ ap (λ b. can_read (after_fin b (acked.heap a).state)) p
                  ∙ acked_lem.reads;
            },
            still_there c' entry,
          )
      from_window t b n (inr (big, ended, kept)) =
          absurd (ground (arith, big, w, t, acked_lem.flow))

      by_data : f.header.tag ≡ data_tag → Arrives (on_frame push now later f c)
      by_data t =
          subst Arrives (sym (runs_data t))
            (from_data t (data_at_lem a f acked (rw acked_lem.buffer v) (omega arith) found))

      by_window :
          f.header.tag ≡ window_update_tag
          → f.body ≡ []
          → has_fin f ≡ false
          → Arrives (on_frame push now later f c)
      by_window t b n =
          subst Arrives (sym (runs_window t)) (from_window t b n (window_at_lem a f acked found))

      pub arrives : Arrives (on_frame push now later f c)
      arrives = elim carried.shape [ inl t ↦ by_data t | inr (t, b, n) ↦ by_window t b n ]

  -- The stream has left the map.
  pub misses :
      get id c.streams ≡ none
      → let out = on_frame push now later f c in
        (out.0 ≡ ok no_action) × (out.1.heap a ≡ c.heap a) × (get id out.1.streams ≡ none)
  unfolding on_frame on_ack acknowledge is_stream_tag contains_key dispatch on_data on_window_update
  misses e = ground (arith, carried.names, carried.no_syn, carried.no_rst, carried.shape)
