-- ===== src/Stream/Reading.antt =====
-- What a read returns, and what it leaves unread.
use rust_yamux.Common.{
  err, ap, ℕ, ◌≡◌, List, ◌++◌, arith, take, drop, Poll, ready, ◌∷◌, [], true, refl, some,
  Bool-cases, inl, inr, false, ◌≢◌, Result, ok, pending, ◌⊎◌, panicked, stuck, not, ◌&&◌, Option,
  none,
}
use rust_yamux.Chunks.{Chunk, Chunks, is_empty, chunk_len, as_ref, offset, advance}
use rust_yamux.Chunks
use rust_yamux.Chunks.Content.{Pops, content, pop_lem, IsValid}
use rust_yamux.Stream.Reader.{copy, copy_fuel, read_buffer, poll_read, poll_next, take_packet}
use rust_yamux.Stream.Credit.{Keeps, send_window_update-Keeps}
use rust_yamux.Stream.State.{State, can_read}
use rust_yamux.Stream.Handle.{Channel, Stream, Context, send_window_update}
use rust_yamux.Stream.Copying.{Copies, Copied-whole, copy_total}

module _ {C : Type 0} (ch : Channel C) (cx : Context) where
  -- The three ends of a read of `want` bytes from a stream that holds `bytes`.
  abbrev pub ReadEnds : ℕ → List ℕ → State → Poll (Result ℕ (List ℕ)) × Stream C → Type 0
  ReadEnds want bytes state (r, t) =
      (take want bytes ≢ []) × (r ≡ ready (ok (take want bytes)))
      ⊎ (take want bytes ≡ [])
        × (can_read state ≡ true)
        × (r ≡ pending)
        × (t.shared.reader ≡ some cx.waker)
      ⊎ (take want bytes ≡ []) × (can_read state ≡ false) × (r ≡ ready (ok []))

  pub read_buffer_ends :
      (want : ℕ) (s : Stream C)
      → IsValid s.shared.buffer
      → let out = read_buffer ch cx want s in
        (content out.1.shared.buffer ≡ drop want (content s.shared.buffer))
        × IsValid out.1.shared.buffer
        × ReadEnds want (content s.shared.buffer) s.shared.state out
  unfolding read_buffer
  read_buffer_ends want s v =
      go (copy (copy_fuel s.shared.buffer) want [] s.shared.buffer) refl
        (copy_total want s.shared.buffer v)
    where
      go :
          (r : Poll (List ℕ × Chunks))
          → copy (copy_fuel s.shared.buffer) want [] s.shared.buffer ≡ r
          → Copies want [] s.shared.buffer r
          → let out = read_buffer ch cx want s in
            (content out.1.shared.buffer ≡ drop want (content s.shared.buffer))
            × IsValid out.1.shared.buffer
            × ReadEnds want (content s.shared.buffer) s.shared.state out
      go (ready ([], left)) e c =
          let (b, r, w) = Copied-whole want s.shared.buffer ([], left) c in
          elim (Bool-cases (can_read s.shared.state)) [
            | inl q ↦ rw (e, read_buffer, q) (r, w, inr (inl (b, refl, refl, refl)))
            | inr q ↦ rw (e, read_buffer, q) (r, w, inr (inr (b, refl, refl)))
          ]
      go (ready (x ∷ xs, left)) e c =
          let (b, r, w) = Copied-whole want s.shared.buffer (x ∷ xs, left) c in
          rw (e, read_buffer) (ground (arith, b, r, w))
      go pending e c = absurd c
      go panicked e c = absurd c
      go stuck e c = absurd c

  -- What a read leaves: `rest` is still to be read.
  abbrev pub Leaves : List ℕ → Stream C → Type 0
  Leaves rest t = (content t.shared.buffer ≡ rest) × IsValid t.shared.buffer

  read_buffer-same :
      (want : ℕ) (s s' : Stream C)
      → Keeps ch cx s s'
      → IsValid s.shared.buffer
      → let out = read_buffer ch cx want s' in
        Leaves (drop want (content s.shared.buffer)) out.1
        × ReadEnds want (content s.shared.buffer) s.shared.state out
  read_buffer-same want s s' k v =
      let (c, w, e) = read_buffer_ends want s' (rw k.buffer v) in
      rw (← k.buffer, ← k.state) ((c, w), e)

  unfoldable pub PacketEnds : List ℕ → State → Poll (Option (Result ℕ (List ℕ))) × Stream C → Type 0
  PacketEnds bytes state (r, t) =
      IsValid t.shared.buffer
      × (((packet : List ℕ) × (r ≡ ready (some (ok packet)))
            × (bytes ≡ packet ++ content t.shared.buffer))
          ⊎ (bytes ≡ [])
            × (content t.shared.buffer ≡ [])
            × ((can_read state ≡ true) × (r ≡ pending) × (t.shared.reader ≡ some cx.waker)
                ⊎ (can_read state ≡ false) × (r ≡ ready none)))

  pub take_packet_ends :
      (s : Stream C)
      → IsValid s.shared.buffer
      → PacketEnds (content s.shared.buffer) s.shared.state (take_packet ch cx s)
  unfolding take_packet PacketEnds
  take_packet_ends s v = go (Chunks.pop s.shared.buffer) refl (pop_lem s.shared.buffer v)
    where
      go :
          (p : Option Chunk × Chunks)
          → Chunks.pop s.shared.buffer ≡ p
          → Pops (content s.shared.buffer) p
          → PacketEnds (content s.shared.buffer) s.shared.state (take_packet ch cx s)
      go (none, rest) e (b, c, w) = ground (arith, e, b, c, w)
      go (some bytes, rest) e (b, c, w) = ground (arith, e, b, c, w)

  take_packet-same :
      (s s' : Stream C)
      → Keeps ch cx s s'
      → IsValid s.shared.buffer
      → PacketEnds (content s.shared.buffer) s.shared.state (take_packet ch cx s')
  take_packet-same s s' k v = rw (← k.buffer, ← k.state) (take_packet_ends s' (rw k.buffer v))

  -- Reading for the data of the stream is not refused, and the window update does not fail.
  pub record MayRead (s : Stream C) : Type 0 where
    pub allowed : (not cx.config.read_after_close && ch.is_closed s.channel) ≡ false
    pub updated :
        ((send_window_update ch cx s).0 ≡ ready (ok tt))
        ⊎ ((send_window_update ch cx s).0 ≡ pending)
    pub buffer : IsValid s.shared.buffer

  module _ (want : ℕ) (s : Stream C) (m : MayRead s) where
    abbrev after_update : Stream C
    after_update = (send_window_update ch cx s).1

    poll_read-read_buffer : poll_read ch cx want s ≡ read_buffer ch cx want after_update
    unfolding poll_read
    poll_read-read_buffer = ground (arith, m.allowed, m.updated)

    pub poll_read-ReadEnds :
        let out = poll_read ch cx want s in
        Leaves (drop want (content s.shared.buffer)) out.1
        × ReadEnds want (content s.shared.buffer) s.shared.state out
    poll_read-ReadEnds =
        let k = send_window_update-Keeps ch cx s in
        rw poll_read-read_buffer (read_buffer-same want s after_update k m.buffer)

    poll_next-take_packet : poll_next ch cx s ≡ take_packet ch cx after_update
    unfolding poll_next
    poll_next-take_packet = ground (arith, m.allowed, m.updated)

    -- Where reading is not refused and the window update neither fails nor panics, `poll_next` takes a
    -- packet off the front of the unread bytes and leaves what follows it. Only
    -- where nothing is unread does it wait, with the reader registered, while the stream can be
    -- read, and else report the end of the stream. It never panics.
    pub poll_next_lem : PacketEnds (content s.shared.buffer) s.shared.state (poll_next ch cx s)
    poll_next_lem =
        rw poll_next-take_packet
          (take_packet-same s after_update (send_window_update-Keeps ch cx s) m.buffer)

  -- What a read comes to, by the answer of the window update before it.
  abbrev pub AfterUpdate :
      Poll (Result ℕ (Unit {0})) → ℕ → Stream C → Poll (Result ℕ (List ℕ)) × Stream C → Type 0
  AfterUpdate (ready (ok _)) want s out =
      Leaves (drop want (content s.shared.buffer)) out.1
      × ReadEnds want (content s.shared.buffer) s.shared.state out
  AfterUpdate pending want s out =
      Leaves (drop want (content s.shared.buffer)) out.1
      × ReadEnds want (content s.shared.buffer) s.shared.state out
  AfterUpdate (ready (err e)) want s out =
      (out.0 ≡ ready (err e)) × Leaves (content s.shared.buffer) out.1
  AfterUpdate panicked want s out = (out.0 ≡ panicked) × Leaves (content s.shared.buffer) out.1
  AfterUpdate stuck want s out = (out.0 ≡ stuck) × Leaves (content s.shared.buffer) out.1

  -- Refused, or not.
  abbrev pub ReadCases : ℕ → Stream C → Poll (Result ℕ (List ℕ)) × Stream C → Type 0
  ReadCases want s out =
      ((not cx.config.read_after_close && ch.is_closed s.channel) ≡ true)
        × (out ≡ (ready (ok []), s))
      ⊎ ((not cx.config.read_after_close && ch.is_closed s.channel) ≡ false)
        × AfterUpdate (send_window_update ch cx s).0 want s out

  updated_ends :
      (want : ℕ) (s s' : Stream C) (r : Poll (Result ℕ (Unit {0})))
      → send_window_update ch cx s ≡ (r, s')
      → IsValid s.shared.buffer
      → (not cx.config.read_after_close && ch.is_closed s.channel) ≡ false
      → Keeps ch cx s s'
      → AfterUpdate r want s (poll_read ch cx want s)
  unfolding poll_read
  updated_ends want s s' (ready (ok u)) e v q k =
      let p : poll_read ch cx want s ≡ read_buffer ch cx want s' = ground (arith, e, q) in
      rw p (read_buffer-same want s s' k v)
  updated_ends want s s' pending e v q k =
      let p : poll_read ch cx want s ≡ read_buffer ch cx want s' = ground (arith, e, q) in
      rw p (read_buffer-same want s s' k v)
  updated_ends want s s' (ready (err x)) e v q k =
      let p : poll_read ch cx want s ≡ (ready (err x), s') = ground (arith, e, q) in
      rw p (refl, (ap content k.buffer, rw k.buffer v))
  updated_ends want s s' panicked e v q k =
      let p : poll_read ch cx want s ≡ (panicked, s') = ground (arith, e, q) in
      rw p (refl, (ap content k.buffer, rw k.buffer v))
  updated_ends want s s' stuck e v q k =
      let p : poll_read ch cx want s ≡ (stuck, s') = ground (arith, e, q) in
      rw p (refl, (ap content k.buffer, rw k.buffer v))

  -- `poll_read` of a stream with a valid buffer. Where the connection has closed the channel and the
  -- configuration does not allow to read after that, it reports the end and changes nothing, be there
  -- unread bytes or not. Else the window update comes first: its error is the result, it panics or
  -- runs out of fuel only where the update does, and then nothing has been read. After an update that
  -- succeeds or is pending the caller gets as many of the unread bytes as its buffer of `want` bytes
  -- takes, in order, and the rest is left; where that is none it waits, with the reader registered,
  -- while the stream can be read, and else reports the end of the stream.
  pub poll_read_lem :
      (want : ℕ) (s : Stream C)
      → IsValid s.shared.buffer
      → ReadCases want s (poll_read ch cx want s)
  unfolding poll_read
  poll_read_lem want s v =
      elim (Bool-cases (not cx.config.read_after_close && ch.is_closed s.channel)) [
        | inl q ↦ inl (q, ground (arith, q))
        | inr q ↦ inr (
          q,
          updated_ends want s (send_window_update ch cx s).1 (send_window_update ch cx s).0 refl v q
              (send_window_update-Keeps ch cx s),
        )
      ]
