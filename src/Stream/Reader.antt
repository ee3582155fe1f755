-- ===== src/Stream/Reader.antt =====
-- `Stream` as a source of bytes: `AsyncRead::poll_read` and `futures::Stream::poll_next`.
use rust_yamux.Common.{
  ℕ, zero, suc, ◌+◌, ◌*◌, ◌-◌, min, true, false, not, ◌&&◌, Option, none, some, List, [], ◌∷◌, ◌++◌,
  ◌==◌, ltb, if◌then◌else◌, length, take, drop, Result, ok, err, Poll, ready, pending, panicked,
  stuck,
}
use rust_yamux.Chunks.{Chunk, Chunks, is_empty, chunk_len, as_ref, offset, advance}
use rust_yamux.Chunks
use rust_yamux.Stream.State.{can_read}
use rust_yamux.Stream.Handle.{Channel, Stream, Context, send_window_update}

-- The loop of `poll_read`, with fuel: the bytes in the caller's buffer of `want` bytes, and what is
-- left of the queue.
unfoldable pub copy : ℕ → ℕ → List ℕ → Chunks → Poll (List ℕ × Chunks)
copy zero want got s = stuck
copy (suc fuel) want got s = elim s.seq [
  | [] ↦ ready (got, s)
  | c ∷ cs ↦ elim (is_empty c) [
    | true ↦ copy fuel want got (Chunks.pop s).1
    | false ↦
        let k = min (chunk_len c) (want - length got) in
        let got' = got ++ take k (as_ref c) in
        elim (advance c k) [
          | none ↦ panicked
          | some c' ↦ elim (length got' == want) [
            | true ↦ ready (got', record s { seq = c' ∷ cs })
            | false ↦ copy fuel want got' (record s { seq = c' ∷ cs })
          ]
        ]
  ]
]

-- Each round takes a chunk away or empties one, but for the last, which may stop within it.
abbrev pub copy_fuel : Chunks → ℕ
copy_fuel s = 2 * length s.seq + 1

module _ {C : Type 0} (ch : Channel C) (cx : Context) where
  -- Both reads register the reader when nothing is there, and see the end of the stream when nothing
  -- can come any more.
  wait : {A : Type 0} → A → Stream C → Poll A × Stream C
  wait eof s =
      if not (can_read s.shared.state)
      then (ready eof, s)
      else (pending, record s { shared = record (s.shared) { reader = some cx.waker } })

  -- After the window update: an error is passed on, and `pending` is ignored.
  past_update :
      {A : Type 0} → (ℕ → A) → (Stream C → Poll A × Stream C) → Stream C → Poll A × Stream C
  past_update failed next s =
      let (r, s') = send_window_update ch cx s in
      elim r [
        | ready (ok _) ↦ next s'
        | ready (err e) ↦ (ready (failed e), s')
        | pending ↦ next s'
        | panicked ↦ (panicked, s')
        | stuck ↦ (stuck, s')
      ]

  unfoldable pub read_buffer : ℕ → Stream C → Poll (Result ℕ (List ℕ)) × Stream C
  unfolding wait
  read_buffer want s = elim (copy (copy_fuel s.shared.buffer) want [] s.shared.buffer) [
    | ready (got, left) ↦
        let s' = record s { shared = record (s.shared) { buffer = left } } in
        if ltb 0 (length got) then (ready (ok got), s') else wait (ok []) s'
    | pending ↦ (pending, s)
    | panicked ↦ (panicked, s)
    | stuck ↦ (stuck, s)
  ]

  -- The bytes that `poll_read` puts into a buffer of `want` bytes; their number is its result.
  unfoldable pub poll_read : ℕ → Stream C → Poll (Result ℕ (List ℕ)) × Stream C
  unfolding wait past_update read_buffer
  poll_read want s =
      if not cx.config.read_after_close && ch.is_closed s.channel
      then (ready (ok []), s)
      else past_update err (read_buffer want) s

  unfoldable pub take_packet : Stream C → Poll (Option (Result ℕ (List ℕ))) × Stream C
  unfolding wait
  take_packet s =
      let (c, left) = Chunks.pop s.shared.buffer in
      let s' = record s { shared = record (s.shared) { buffer = left } } in
      elim c [
        | some bytes ↦ (ready (some (ok (drop (offset bytes) bytes.inner))), s')
        | none ↦ wait none s'
      ]

  -- The next packet, or `none` at the end of the stream.
  unfoldable pub poll_next : Stream C → Poll (Option (Result ℕ (List ℕ))) × Stream C
  unfolding wait past_update take_packet
  poll_next s =
      if not cx.config.read_after_close && ch.is_closed s.channel
      then (ready none, s)
      else past_update (λ e. some (err e)) take_packet s
