-- ===== src/Session/Steps.antt =====
-- What holds of both directions of a link, after any number of steps.
use rust_yamux.Common.{
  ℕ, ◌≡◌, refl, List, [], ◌∷◌, ◌++◌, arith, inl, inr, ap, sym, ◌∙◌, subst, append_assoc,
  length-append, ok,
}
use rust_yamux.Action.{no_action}
use rust_yamux.Frame.{Frame}
use rust_yamux.Stream.Shared.{Shared}
use rust_yamux.Stream.Handle.{Channel, Context, Stream, StreamCommand}
use rust_yamux.Connection.Active.{Active, write}
use rust_yamux.Connection.Handlers.{on_frame}
use rust_yamux.Connection.Wires.{command_frame}
use rust_yamux.Session.{Fifo, End, Call, call, run, stream_of, after_call}
use rust_yamux.Session.Flight.{frames_of, frames_of-append, bodies, credits}
use rust_yamux.Session.Calls.{Effect, Effects, Fit, flush-Effect}
use rust_yamux.Session.Calls.Write.{write-Effects}
use rust_yamux.Session.Calls.Taking.{read-Effects, next-Effects}
use rust_yamux.Session.Calls.Close.{close-Effects}
use rust_yamux.Session.Arrival.{arrives, misses}
use rust_yamux.Session.Direction.{idle-Dir, side, called, Dir, call-writer, call-reader}
use rust_yamux.Session.Direction.Arrivals.{Lands, lands-writer, lands-reader}
use rust_yamux.Session.Link.{
  Link, flip, ahead, carry, deliver, Untouched, Opened, Fresh, Step, Reach, here, then_step,
}
use rust_yamux.Session.Link

module _ {C : Type 0} (ch : Channel C) (fifo : Fifo ch) where
  run-Effects :
      (cx : Context) (c : Call) (s : Stream C)
      → Fit ch fifo s
      → let (t, w, g) = run ch cx c s in Effects ch fifo s t w g
  unfolding run
  run-Effects cx (Call.write buf) s f = write-Effects ch fifo cx s f buf
  run-Effects cx (Call.read want) s f = read-Effects ch fifo cx s f want
  run-Effects cx Call.next_packet s f = next-Effects ch fifo cx s f
  run-Effects cx Call.flush s f = ([], 0, flush-Effect ch fifo cx s f)
  run-Effects cx Call.close s f = close-Effects ch fifo cx s f

pub write_same : (heap : ℕ → Shared) (a : ℕ) (s : Shared) → write heap a s a ≡ s
write_same heap a s = ground arith

module _ {R T C : Type 0} (ch : Channel C) (fifo : Fifo ch) where
  abbrev pub Sound : Link R T C → Type 0
  Sound l =
      Dir (side l.left) (side l.right) (ahead ch fifo l) (ahead ch fifo (flip l))
      × Dir (side l.right) (side l.left) (ahead ch fifo (flip l)) (ahead ch fifo l)

  module _ (l : Link R T C) (h : Sound l) where
    fit : Fit ch fifo (stream_of l.left)
    fit = record {
      flag = h.0.flag;
      send = omega (arith, h.0.credit, h.0.room);
      room = h.1.room;
      buffer = h.1.buffer;
    }

    side-after_call :
        (t : Stream C) (w g : List ℕ) → side (after_call t w g l.left) ≡ called (side l.left) t w g
    side-after_call t w g =
        ap (λ (x : Shared). record (called (side l.left) t w g) { shared = x })
          (write_same l.left.conn.heap l.left.handle.address t.shared)

    queued_after :
        (t : Stream C) (w g : List ℕ) (sent : List StreamCommand) (n : ℕ)
        → Effect ch fifo (stream_of l.left) t w g sent n
        → ahead ch fifo (record l { left = after_call t w g l.left })
          ≡ ahead ch fifo l ++ frames_of l.left.handle.id sent
    queued_after t w g sent n e =
        let id = l.left.handle.id in
        ap (λ q. l.out ++ frames_of id q) e.queue
        ∙ ap (λ q. l.out ++ q) (frames_of-append id (fifo.queued l.left.channel) sent)
        ∙ sym (append_assoc l.out (frames_of id (fifo.queued l.left.channel)) (frames_of id sent))

    effect-Sound :
        (t : Stream C) (w g : List ℕ)
        → Effects ch fifo (stream_of l.left) t w g
        → Sound (record l { left = after_call t w g l.left })
    effect-Sound t w g (sent, n, e) =
        rw (side-after_call t w g, queued_after t w g sent n e)
          (
            call-writer ch fifo (stream_of l.left) t w g sent n e (ahead ch fifo l)
                (ahead ch fifo (flip l)) (side l.left) (side l.right) refl refl h.0,
            call-reader ch fifo (stream_of l.left) t w g sent n e (ahead ch fifo (flip l))
                (ahead ch fifo l) (side l.right) (side l.left) refl refl h.1,
          )

    called-Sound : (cx : Context) (c : Call) → Sound (record l { left = call ch cx c l.left })
    unfolding call
    called-Sound cx c = effect-Sound _ _ _ (run-Effects ch fifo cx c (stream_of l.left) fit)

    abbrev carried_one : StreamCommand → Link R T C
    carried_one cmd = record l {
      left = record (l.left) { channel = fifo.taken l.left.channel };
      out = l.out ++ (command_frame l.left.handle.id cmd ∷ []);
    }

    ahead-carried :
        (cmd : StreamCommand) (cmds : List StreamCommand)
        → fifo.queued l.left.channel ≡ cmd ∷ cmds
        → ahead ch fifo (carried_one cmd) ≡ ahead ch fifo l
    unfolding frames_of
    ahead-carried cmd cmds e =
        let id = l.left.handle.id in
        append_assoc l.out (command_frame id cmd ∷ [])
          (frames_of id (fifo.queued (fifo.taken l.left.channel)))
        ∙ ap (λ q. l.out ++ (command_frame id cmd ∷ frames_of id q))
            (fifo.takes cmd cmds l.left.channel e)
        ∙ ap (λ q. l.out ++ frames_of id q) (sym e)

    carry-Sound : Sound (carry ch fifo l)
    unfolding carry
    carry-Sound = go (fifo.queued l.left.channel) refl
      where
        go : (q : List StreamCommand) → fifo.queued l.left.channel ≡ q → Sound (carry ch fifo l)
        go [] e = let p : l ≡ carry ch fifo l = ground (arith, e) in subst Sound p h
        go (cmd ∷ cmds) e =
            let p : carried_one cmd ≡ carry ch fifo l = ground (arith, e) in
            subst Sound p (rw (ahead-carried cmd cmds e) h)

    abbrev pub landed : (ℕ → ℕ → R → R) → ℕ → ℕ → Frame → End R T C
    landed push now later f = record (l.left) { conn = (on_frame push now later f l.left.conn).1 }

    -- The frame that the left connection reads next.
    module _ (push : ℕ → ℕ → R → R) (now later : ℕ) (f : Frame) (fs : List Frame)
        (e : l.back ≡ f ∷ fs) where
      abbrev rest : List Frame
      rest = fs ++ frames_of l.right.handle.id (fifo.queued l.right.channel)

      comes : Dir (side l.right) (side l.left) (f ∷ rest) (ahead ch fifo l)
      comes =
          subst
            (λ q.
              Dir (side l.right) (side l.left)
                (q ++ frames_of l.right.handle.id (fifo.queued l.right.channel)) (ahead ch fifo l))
            e h.1

      gives : Dir (side l.left) (side l.right) (ahead ch fifo l) (f ∷ rest)
      gives =
          subst
            (λ q.
              Dir (side l.left) (side l.right) (ahead ch fifo l)
                (q ++ frames_of l.right.handle.id (fifo.queued l.right.channel)))
            e h.0

      pub lands :
          ((on_frame push now later f l.left.conn).0 ≡ ok no_action)
          × Lands f (side l.left) (side (landed push now later f))
      unfolding bodies credits
      lands = elim comes.kept [
        | inl k ↦
            let (r, x, y) =
              arrives push now later f l.left.conn l.left.handle.id l.left.handle.address
                comes.carried.0 k comes.buffer
                (omega (arith, comes.credit, length-append f.body (bodies rest))) comes.room
                (omega (arith, gives.credit, gives.room)) in
            (
              r,
              record {
                handle = refl;
                written = refl;
                got = refl;
                outcome = inl (k, x, elim y [ inl z ↦ inl z | inr z ↦ inr z ]);
              },
            )
        | inr (o, b, w) ↦
            let (r, x, y) =
              misses push now later f l.left.conn l.left.handle.id l.left.handle.address
                comes.carried.0 o in
            (r, record { handle = refl; written = refl; got = refl; outcome = inr (o, y, x) })
      ]

    deliver-Sound : (push : ℕ → ℕ → R → R) (now later : ℕ) → Sound (deliver push now later l)
    unfolding deliver
    deliver-Sound push now later = go l.back refl
      where
        go : (q : List Frame) → l.back ≡ q → Sound (deliver push now later l)
        go [] e = let p : l ≡ deliver push now later l = ground (arith, e) in subst Sound p h
        go (f ∷ fs) e =
            let m : Link R T C = record l { left = landed push now later f; back = fs } in
            let p : m ≡ deliver push now later l = ground (arith, e) in
            let k = (lands push now later f fs e).1 in
            subst Sound p (
              lands-writer f (ahead ch fifo l) (rest push now later f fs e) (side l.left) _
                  (side l.right) k (gives push now later f fs e),
              lands-reader f (rest push now later f fs e) (ahead ch fifo l) (side l.right)
                  (side l.left) _ k (comes push now later f fs e),
            )

    elsewhere-Sound :
        (c : Active R T)
        → Untouched l.left c
        → Sound (record l { left = record (l.left) { conn = c } })
    elsewhere-Sound c u = rw (u.0, u.1) h

  module _ (push : ℕ → ℕ → R → R) where
    Step-Sound : (l m : Link R T C) → Step ch fifo push l m → Sound l → Sound m
    Step-Sound _ _ (Link.called cx c l) h = called-Sound l h cx c
    Step-Sound _ _ (Link.carried l) h = carry-Sound l h
    Step-Sound _ _ (Link.delivered now later l) h = deliver-Sound l h push now later
    Step-Sound _ _ (Link.elsewhere c l u) h = elsewhere-Sound l h c u
    Step-Sound _ _ (Link.flipped l m t) h = let (a, b) = Step-Sound l m t (h.1, h.0) in (b, a)

    Fresh-Dir :
        (w r : End R T C) → Fresh ch fifo w r → Fresh ch fifo r w → Dir (side w) (side r) [] []
    Fresh-Dir w r a b =
        idle-Dir (side w) (side r) a.id a.flag b.room a.windows a.listed b.listed b.readable
          b.buffer (rw (a.written, b.got, b.empty) refl)

    pub Opened-Sound : (l : Link R T C) → Opened ch fifo l → Sound l
    unfolding frames_of
    Opened-Sound l o =
        rw (o.out, o.back, o.left.queue, o.right.queue)
          (Fresh-Dir l.left l.right o.left o.right, Fresh-Dir l.right l.left o.right o.left)

    pub Reach-Sound : (start l : Link R T C) → Sound start → Reach ch fifo push start l → Sound l
    Reach-Sound start _ h here = h
    Reach-Sound start _ h (then_step l m r t) = Step-Sound l m t (Reach-Sound start l h r)
