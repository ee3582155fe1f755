-- ===== src/Tests/Wakers.antt =====
-- The wakers of a stream whose channel is full.
use rust_yamux.Common.{ℕ, ◌≡◌, refl, none, some, [], ◌∷◌, Option, ok, err, ready, pending, false}
use rust_yamux.Config.{default_credit}
use rust_yamux.Stream.Handle.{Channel, Half, writing, updating, Stream, new_inbound, poll_write}
use rust_yamux.Stream.Wakers.{Separate, Registered, read_all, writer_woken}
use rust_yamux.Tests.Streams.{context}

-- The wakers of the two senders.
abbrev Full : Type 0
Full = Option ℕ × Option ℕ

park : Half → ℕ → Full → Full
park writing w (a, b) = (some w, b)
park updating w (a, b) = (a, some w)

waker_of : Half → Full → Option ℕ
waker_of writing (a, b) = a
waker_of updating (a, b) = b

parked : (h : Half) (w : ℕ) (c : Full) → waker_of h (park h w c) ≡ some w
unfolding park waker_of
parked writing w (a, b) = refl
parked updating w (a, b) = refl

abbrev full : Channel Full
full = record {
  is_closed = λ c. false;
  poll_ready = λ h w c. (pending, park h w c);
  start_send = λ h x c. (err 0, c);
  poll_flush = λ w c. (ready (ok tt), c);
}

full-Separate : Separate full
unfolding park waker_of
full-Separate = record {
  waker = waker_of;
  registers = λ h w c p. parked h w c;
  ready_apart = λ w c. refl;
  send_apart = λ cmd c. refl;
}

abbrev blocked : Stream Full
blocked = new_inbound 2 default_credit (none, none) 0 0

writer_woken_example : Registered full full-Separate context.waker (
    read_all full full-Separate
      ((record context { waker = 5 }, some 16) ∷ [])
      (poll_write full context (1 ∷ []) blocked).1)
unfolding poll_write
writer_woken_example =
    writer_woken full full-Separate context (1 ∷ []) blocked
      ((record context { waker = 5 }, some 16) ∷ []) refl
