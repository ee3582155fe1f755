-- ===== src/Session/Dial.antt =====
-- How a stream between two connections begins: one side asks for it and writes, and the other side
-- reads the frame.
use rust_yamux.Common.{
  Result, subst, inl, inr, ℕ, ◌-◌, ◌≡◌, ◌≤◌, refl, false, List, length, some, ok, ready, arith, sym,
}
use rust_yamux.Error.{ConnectionError}
use rust_yamux.Action.{Action, new_stream}
use rust_yamux.Config.{default_credit}
use rust_yamux.Chunks.Content
use rust_yamux.Frame.{Frame}
use rust_yamux.Frame.Header
use rust_yamux.Frame.Header.{data_tag}
use rust_yamux.Stream.State.{opened, ack_first, syn_first}
use rust_yamux.Stream.Shared
use rust_yamux.Stream.Handle.{add_flag}
use rust_yamux.Connection.StreamMap.{get, get-insert}
use rust_yamux.Connection.Active.{Active, Handle}
use rust_yamux.Connection.Opening.{
  poll_new_outbound, open_outbound, next_stream_id, make_new_outbound_stream, allocate,
}
use rust_yamux.Connection.Handlers.{on_frame, on_data, dispatch, is_stream_tag}
use rust_yamux.Connection.Inbound.{OpensByData, Admissible, opens_by_data}

-- The frame of the caller's first write: data with SYN.
abbrev pub first_frame : ℕ → ℕ → List ℕ → Frame
first_frame id n body = record {
  header = add_flag syn_first (Header.data_header id n);
  body = body;
}

module _ {R T : Type 0} (push : ℕ → ℕ → R → R) where
  -- What the caller has when a stream is opened for it.
  pub opened_lem :
      (waker now : ℕ) (c c' : Active R T) (h : Handle)
      → poll_new_outbound push waker now c ≡ (ready (ok h), c')
      → (h.flag ≡ syn_first)
        × (get h.id c'.streams ≡ some h.address)
        × (c'.heap h.address ≡ Shared.new default_credit default_credit now)
  unfolding poll_new_outbound open_outbound next_stream_id make_new_outbound_stream allocate
  opened_lem waker now c c' h e = ground (arith, get-insert h.id h.id c.fresh c.streams)

  module _ (id n : ℕ) (body : List ℕ) where
    -- The stream that the first frame opens at the callee `c`, which is then `c'`.
    abbrev pub Answered : Active R T → Result ConnectionError (Action Handle) × Active R T → Type 0
    Answered c (r, c') =
        (r ≡ ok (new_stream (record { id = id; address = c.fresh; flag = ack_first })))
        × (get id c'.streams ≡ some c.fresh)
        × ((c'.heap c.fresh).flow.receive_window ≡ default_credit - length body)
        × ((c'.heap c.fresh).flow.send_window ≡ default_credit)
        × ((c'.heap c.fresh).state ≡ opened false)
        × (Content.content (c'.heap c.fresh).buffer ≡ body)
        × Content.IsValid (c'.heap c.fresh).buffer

    on_frame-first :
        (now later : ℕ) (c : Active R T)
        → on_frame push now later (first_frame id n body) c ≡ (
          ok (on_data push now (first_frame id n body) c).0,
          (on_data push now (first_frame id n body) c).1,
        )
    unfolding on_frame is_stream_tag dispatch add_flag Header.syn Header.data_header Header.contains
    on_frame-first now later c = refl

    pub answered :
        (now later : ℕ) (c : Active R T)
        → Admissible data_tag (first_frame id n body) c
        → length body ≤ default_credit
        → Answered c (on_frame push now later (first_frame id n body) c)
    unfolding add_flag Header.syn Header.data_header Header.contains
    answered now later c a l =
        subst (Answered c) (sym (on_frame-first now later c))
          (pick _ _ (opens_by_data push now (first_frame id n body) c refl refl))
      where
        pick :
            (r : Action Handle) (c' : Active R T)
            → OpensByData (first_frame id n body) c (r, c')
            → Answered c (ok r, c')
        pick r c' (inl (a, l, o)) = ground (arith, o)
        pick r c' (inr (inl (e, r', inl b))) = absurd (ground (arith, a, b))
        pick r c' (inr (inl (e, r', inr b))) = absurd (omega (arith, b))
        pick r c' (inr (inr (e, r', m))) = absurd (a.2 m)
