-- ===== src/Stream/Wakers.antt =====
-- A write that waits is woken: a read of another task does not take its waker away.
use rust_yamux.Common.{
  ℕ, ◌≡◌, ◌⊎◌, inl, inr, Option, none, some, List, [], ◌∷◌, arith, ◌∙◌, pending,
}
use rust_yamux.Stream.Handle.{
  Channel, Half, writing, updating, StreamCommand, Stream, Context, poll_write, write_some,
  write_body, send_window_update,
}
use rust_yamux.Stream.Reader.{poll_read, poll_next, read_buffer, take_packet}
use rust_yamux.Stream.Credit.{send_window_update-Keeps}

-- What `mpsc` documents of the wakers of its senders: each sender keeps that of the task that it last
-- made wait, and no other sender touches it.
pub record Separate {C : Type 0} (ch : Channel C) : Type 0 where
  pub waker : Half → C → Option ℕ
  pub registers :
      (h : Half) (w : ℕ) (c : C)
      → (ch.poll_ready h w c).0 ≡ pending
      → waker h (ch.poll_ready h w c).1 ≡ some w
  pub ready_apart : (w : ℕ) (c : C) → waker writing (ch.poll_ready updating w c).1 ≡ waker writing c
  pub send_apart :
      (cmd : StreamCommand) (c : C)
      → waker writing (ch.start_send updating cmd c).1 ≡ waker writing c

module _ {C : Type 0} (ch : Channel C) (sep : Separate ch) where
  -- The writing task is to be woken by the channel, or by the connection when credit comes.
  abbrev pub Registered : ℕ → Stream C → Type 0
  Registered w s = (sep.waker writing s.channel ≡ some w) ⊎ (s.shared.writer ≡ some w)

  -- A call of `poll_next`, or of `poll_read` with a buffer of some bytes.
  abbrev pub Read : Type 0
  Read = Context × Option ℕ

  unfoldable pub read_one : Read → Stream C → Stream C
  read_one (cx, none) s = (poll_next ch cx s).1
  read_one (cx, some want) s = (poll_read ch cx want s).1

  unfoldable pub read_all : List Read → Stream C → Stream C
  unfolding read_one
  read_all [] s = s
  read_all (r ∷ rs) s = read_all rs (read_one r s)

  module _ (cx : Context) (s : Stream C) where
    update_waker :
        sep.waker writing (send_window_update ch cx s).1.channel ≡ sep.waker writing s.channel
    unfolding send_window_update
    update_waker = grind (arith, sep.ready_apart, sep.send_apart)

    read_waker :
        (want : ℕ)
        → sep.waker writing (poll_read ch cx want s).1.channel ≡ sep.waker writing s.channel
    unfolding poll_read read_buffer
    read_waker want = ground (arith, update_waker)

    next_waker : sep.waker writing (poll_next ch cx s).1.channel ≡ sep.waker writing s.channel
    unfolding poll_next take_packet
    next_waker = ground (arith, update_waker)

    read_writer : (want : ℕ) → (poll_read ch cx want s).1.shared.writer ≡ s.shared.writer
    unfolding poll_read read_buffer
    read_writer want = ground (arith, (send_window_update-Keeps ch cx s).writer)

    next_writer : (poll_next ch cx s).1.shared.writer ≡ s.shared.writer
    unfolding poll_next take_packet
    next_writer = ground (arith, (send_window_update-Keeps ch cx s).writer)

    waits :
        (buf : List ℕ)
        → (poll_write ch cx buf s).0 ≡ pending
        → Registered cx.waker (poll_write ch cx buf s).1
    unfolding poll_write write_some write_body
    waits buf p = ground (arith, p, sep.registers writing cx.waker s.channel)

  read_one-Registered :
      (w : ℕ) (r : Read) (s : Stream C) → Registered w s → Registered w (read_one r s)
  unfolding read_one
  read_one-Registered w (cx, none) s (inl p) = inl (next_waker cx s ∙ p)
  read_one-Registered w (cx, none) s (inr p) = inr (next_writer cx s ∙ p)
  read_one-Registered w (cx, some want) s (inl p) = inl (read_waker cx s want ∙ p)
  read_one-Registered w (cx, some want) s (inr p) = inr (read_writer cx s want ∙ p)

  read_all-Registered :
      (w : ℕ) (rs : List Read) (s : Stream C) → Registered w s → Registered w (read_all rs s)
  unfolding read_all
  read_all-Registered w [] s h = h
  read_all-Registered w (r ∷ rs) s h =
      read_all-Registered w rs (read_one r s) (read_one-Registered w r s h)

  -- A write that is pending has its waker registered, with the channel where that is full, or with the
  -- stream where it has no credit, and it stays registered over any number of reads, whatever tasks
  -- make them. The two senders of the stream keep their wakers apart.
  pub writer_woken :
      (cx : Context) (buf : List ℕ) (s : Stream C) (rs : List Read)
      → (poll_write ch cx buf s).0 ≡ pending
      → Registered cx.waker (read_all rs (poll_write ch cx buf s).1)
  writer_woken cx buf s rs p = read_all-Registered cx.waker rs _ (waits cx s buf p)
