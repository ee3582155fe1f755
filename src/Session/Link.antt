-- ===== src/Session/Link.antt =====
-- Two ends with a wire each way, and what may happen between them, in any order.
use rust_yamux.Common.{ℕ, ◌≡◌, ◌≢◌, ◌≤◌, List, [], ◌∷◌, ◌++◌, true, some}
use rust_yamux.Common.Words.{u32_max}
use rust_yamux.Chunks.Content
use rust_yamux.Frame.{Frame}
use rust_yamux.Stream.State.{syn_first, can_read, can_write}
use rust_yamux.Stream.Handle.{Channel, Context}
use rust_yamux.Connection.StreamMap.{get}
use rust_yamux.Connection.Active.{Active}
use rust_yamux.Connection.Handlers.{on_frame}
use rust_yamux.Connection.Wires.{command_frame}
use rust_yamux.Session.{Fifo, End, Call, call}
use rust_yamux.Session.Flight.{frames_of}

-- `out` are the frames that the left connection has sent and the right one has not read, oldest
-- first, and `back` those of the other way.
pub record Link (R T C : Type 0) : Type 0 where
  pub left : End R T C
  pub right : End R T C
  pub out : List Frame
  pub back : List Frame

module _ {R T C : Type 0} where
  abbrev pub flip : Link R T C → Link R T C
  flip l = record { left = l.right; right = l.left; out = l.back; back = l.out }

  -- The connection is busy with other streams.
  abbrev pub Untouched : End R T C → Active R T → Type 0
  Untouched e c =
      (get e.handle.id c.streams ≡ get e.handle.id e.conn.streams)
      × (c.heap e.handle.address ≡ e.conn.heap e.handle.address)

  -- The left connection reads a frame of the stream.
  unfoldable pub deliver : (ℕ → ℕ → R → R) → ℕ → ℕ → Link R T C → Link R T C
  deliver push now later l = elim l.back [
    | [] ↦ l
    | f ∷ fs ↦ record l {
      left = record (l.left) { conn = (on_frame push now later f l.left.conn).1 };
      back = fs;
    }
  ]

module _ {R T C : Type 0} (ch : Channel C) (fifo : Fifo ch) where
  -- The left connection takes a command of the stream and writes its frame.
  unfoldable pub carry : Link R T C → Link R T C
  carry l = elim (fifo.queued l.left.channel) [
    | [] ↦ l
    | cmd ∷ cmds ↦ record l {
      left = record (l.left) { channel = fifo.taken l.left.channel };
      out = l.out ++ (command_frame l.left.handle.id cmd ∷ []);
    }
  ]

  -- The frames of the left end on their way, those that are still commands included.
  abbrev pub ahead : Link R T C → List Frame
  ahead l = l.out ++ frames_of l.left.handle.id (fifo.queued l.left.channel)

  -- A stream that both ends have opened, before anything is written.
  pub record Fresh (w r : End R T C) : Type 0 where
    pub id : w.handle.id ≡ r.handle.id
    pub flag : w.handle.flag ≢ syn_first
    pub queue : fifo.queued w.channel ≡ []
    pub listed : get w.handle.id w.conn.streams ≡ some w.handle.address
    pub readable : can_read (w.conn.heap w.handle.address).state ≡ true
    pub writable : can_write (w.conn.heap w.handle.address).state ≡ true
    pub buffer : Content.IsValid (w.conn.heap w.handle.address).buffer
    pub empty : Content.content (w.conn.heap w.handle.address).buffer ≡ []
    pub windows :
        (w.conn.heap w.handle.address).flow.send_window
        ≡ (r.conn.heap r.handle.address).flow.receive_window
    pub room : (w.conn.heap w.handle.address).flow.receive_window ≤ u32_max
    pub written : w.written ≡ []
    pub got : w.got ≡ []

  pub record Opened (l : Link R T C) : Type 0 where
    pub left : Fresh l.left l.right
    pub right : Fresh l.right l.left
    pub out : l.out ≡ []
    pub back : l.back ≡ []

  module _ (push : ℕ → ℕ → R → R) where
    pub data Step : Link R T C → Link R T C → Type 0 where
      called :
          (cx : Context) (c : Call) (l : Link R T C)
          → Step l (record l { left = call ch cx c l.left })
      carried : (l : Link R T C) → Step l (carry l)
      delivered : (now later : ℕ) (l : Link R T C) → Step l (deliver push now later l)
      elsewhere :
          (c : Active R T) (l : Link R T C)
          → Untouched l.left c
          → Step l (record l { left = record (l.left) { conn = c } })
      flipped : (l m : Link R T C) → Step l m → Step (flip l) (flip m)

    pub data Reach (start : Link R T C) : Link R T C → Type 0 where
      here : Reach start start
      then_step : (l m : Link R T C) → Reach start l → Step l m → Reach start m
