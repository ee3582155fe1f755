-- ===== src/Session/Transfer.antt =====
-- What a stream between two connections promises: every byte once and in order, and no frame that the
-- other end must refuse.
use rust_yamux.Common.{Bool, true, false, if◌then◌else◌, ℕ, ◌≡◌, List, ◌∷◌, ◌++◌, ok}
use rust_yamux.Action.{no_action}
use rust_yamux.Chunks.Content
use rust_yamux.Frame.{Frame}
use rust_yamux.Stream.Handle.{Channel}
use rust_yamux.Connection.Handlers.{on_frame}
use rust_yamux.Session.{Fifo, End}
use rust_yamux.Session.Flight.{bodies}
use rust_yamux.Session.Dialled.{Begun, Begun-Sound}
use rust_yamux.Session.Link.{Link, flip, ahead, Reach}
use rust_yamux.Session.Steps.{Reach-Sound, lands}

module _ {R T C : Type 0} where
  -- What the end `x` has written, against what the other end `y` has got and has not read yet, and the
  -- frames on their way.
  abbrev pub Conveys : End R T C → End R T C → List Frame → Type 0
  Conveys x y frames =
      x.written ≡ y.got ++ (Content.content (y.conn.heap y.handle.address).buffer ++ bodies frames)

  -- The left end for `true`, and the right one for `false`, with the frames that come in there.
  abbrev pub end_of : Bool → Link R T C → End R T C
  end_of left l = if left then l.left else l.right

  abbrev pub incoming : Bool → Link R T C → List Frame
  incoming left l = if left then l.back else l.out

module _ {R T C : Type 0} (ch : Channel C) (fifo : Fifo ch) (push : ℕ → ℕ → R → R)
    (start l : Link R T C) (o : Begun ch fifo push start) (r : Reach ch fifo push start l) where
  -- Of a stream that both ends hold opened, or that one end has just opened with a first write that
  -- the other has read, after any number of calls on either handle, of commands taken and written, of
  -- frames read, and of other work of the connections, in any order: the bytes that one end has
  -- reported as written are those that the other has reported as read, then those in its buffer, then
  -- those in frames and commands on their way, and so in the other direction. Nothing is lost, doubled
  -- or moved, also after one end has closed. The channels keep their order.
  pub in_order :
      Conveys l.left l.right (ahead ch fifo l) × Conveys l.right l.left (ahead ch fifo (flip l))
  in_order =
      let (a, b) = Reach-Sound ch fifo push start l (Begun-Sound ch fifo push start o) r in
      (a.log, b.log)

  -- In such runs of a stream, the next frame of it that either connection reads is never refused: the answer is no
  -- action, and in particular no protocol error for data that overruns a window or for credit that
  -- overflows one.
  pub never_refused :
      (left : Bool) (now later : ℕ) (f : Frame) (fs : List Frame)
      → incoming left l ≡ f ∷ fs
      → (on_frame push now later f (end_of left l).conn).0 ≡ ok no_action
  never_refused true now later f fs e =
      (lands ch fifo l (Reach-Sound ch fifo push start l (Begun-Sound ch fifo push start o) r) push
        now later f fs e).0
  never_refused false now later f fs e =
      let s = Reach-Sound ch fifo push start l (Begun-Sound ch fifo push start o) r in
      (lands ch fifo (flip l) (s.1, s.0) push now later f fs e).0
