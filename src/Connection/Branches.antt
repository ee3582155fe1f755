-- ===== src/Connection/Branches.antt =====
-- `Active::on_frame`: what holds on each of its branches holds of its result.
use rust_yamux.Common.{
  ℕ, ◌≡◌, refl, Bool, true, false, not, ◌&&◌, Option, none, some, if◌then◌else◌, ok,
}
use rust_yamux.Action.{no_action}
use rust_yamux.Frame.{Frame}
use rust_yamux.Frame.Header.{
  Tag, data_tag, window_update_tag, ping_tag, go_away_tag, contains, syn_flag, ack_flag, rst_flag,
}
use rust_yamux.Connection.StreamMap.{get, contains_key}
use rust_yamux.Connection.Active.{Active}
use rust_yamux.Connection.Removal.{Reply, reset}
use rust_yamux.Connection.Handlers.{
  on_frame, on_data, on_window_update, on_ping, on_ack, dispatch, data_at, window_at, syn_by_data,
  syn_by_window, is_stream_tag,
}

-- The connection once the ACK of the frame has been dealt with.
abbrev pub acked : {R T : Type 0} → Frame → Active R T → Active R T
acked f c =
    if contains f.header.flags ack_flag && is_stream_tag f.header.tag
    then on_ack f.header.stream_id c
    else c

-- The branches behind the ACK.
pub record Branches {R T : Type 0} (P : Active R T → Type 0) (push : ℕ → ℕ → R → R) (now later : ℕ)
    (f : Frame) (c : Active R T) : Type 0 where
  pub same : P c
  pub rst : P (reset f.header.stream_id c)
  pub syn_data : P (syn_by_data push now f c).1
  pub syn_window : P (syn_by_window push now f c).1
  pub data_frame : (a : ℕ) → get f.header.stream_id c.streams ≡ some a → P (data_at a f c).1
  pub window_update : (a : ℕ) → get f.header.stream_id c.streams ≡ some a → P (window_at a f c).1
  pub ping : P (on_ping now later f c).1

module _ {R T : Type 0} (P : Active R T → Type 0) (f : Frame) where
  -- The three branches that `on_data` and `on_window_update` have in common.
  by_flags :
      (rst syn : Bool) (x : Option ℕ) (opened : Reply R T)
      (handler : ℕ → Frame → Active R T → Reply R T) (c : Active R T)
      → P (reset f.header.stream_id c)
      → P opened.1
      → P c
      → ((a : ℕ) → x ≡ some a → P (handler a f c).1)
      → P
          (if rst
            then (no_action, reset f.header.stream_id c)
            else if syn
            then opened
            else (elim x as (λ _. Reply R T) [ none ↦ (no_action, c) | some a ↦ handler a f c ])).1
  by_flags true syn x opened handler c r o s k = r
  by_flags false true x opened handler c r o s k = o
  by_flags false false none opened handler c r o s k = s
  by_flags false false (some a) opened handler c r o s k = k a refl

  by_ack :
      (b : Bool) (c : Active R T)
      → P c
      → P (on_ack f.header.stream_id c)
      → P (if b then on_ack f.header.stream_id c else c)
  by_ack true c p q = q
  by_ack false c p q = p

  pub acked_either : (c : Active R T) → P c → P (on_ack f.header.stream_id c) → P (acked f c)
  acked_either c p q = by_ack (contains f.header.flags ack_flag && is_stream_tag f.header.tag) c p q

  module _ (push : ℕ → ℕ → R → R) (now later : ℕ) where
    by_tag :
        (tag : Tag) (c : Active R T)
        → Branches P push now later f c
        → P (dispatch push tag now later f c).1
    unfolding dispatch on_data on_window_update
    by_tag data_tag c b =
        by_flags (contains f.header.flags rst_flag) (contains f.header.flags syn_flag)
          (get f.header.stream_id c.streams) (syn_by_data push now f c) data_at c b.rst b.syn_data
          b.same b.data_frame
    by_tag window_update_tag c b =
        by_flags (contains f.header.flags rst_flag) (contains f.header.flags syn_flag)
          (get f.header.stream_id c.streams) (syn_by_window push now f c) window_at c b.rst
          b.syn_window b.same b.window_update
    by_tag ping_tag c b = b.ping
    by_tag go_away_tag c b = b.same

    either :
        (x : Bool) (tag : Tag) (c : Active R T)
        → P c
        → P (dispatch push tag now later f c).1
        → P (if x then (ok no_action, c) else dispatch push tag now later f c).1
    either true tag c p q = p
    either false tag c p q = q

    pub on_frame_cases :
        (c : Active R T)
        → Branches P push now later f (acked f c)
        → P (on_frame push now later f c).1
    unfolding on_frame
    on_frame_cases c b =
        either
          (not (contains f.header.flags syn_flag)
            && is_stream_tag f.header.tag
            && not (contains_key f.header.stream_id (acked f c).streams))
          f.header.tag (acked f c) b.same (by_tag f.header.tag (acked f c) b)
