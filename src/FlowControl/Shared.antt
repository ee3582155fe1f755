-- ===== src/FlowControl/Shared.antt =====
-- The flow controllers of one connection, which share the counter
-- `accumulated_max_stream_windows`: every order of their operations, as a step relation.
pub mod Windows
use rust_yamux.Common.{Option, List, ℕ, ◌++◌, ◌≤◌, ◌≡◌, ◌+◌, arith, ◌≢◌, refl}
use rust_yamux.Common.{
  ℕ, ◌+◌, ◌-◌, ◌*◌, ◌≤◌, ◌≡◌, ap, Option, none, some, List, [], ◌∷◌, ◌++◌, arith, All, All-append,
  All-append_left, All-append_right, ok, length, Returns,
}
use rust_yamux.Common.Words.{u32_max}
use rust_yamux.Config.{Config, window_limit, default_credit}
use rust_yamux.Config.Laws
use rust_yamux.FlowControl.{
  FlowController, new, next_window_update, consume_receive_window, consume_send_window,
  increase_send_window_by, drop,
}
use rust_yamux.FlowControl.Inv.{Inv, Updated, next_window_update-Updated}

-- A stream's controller with the number of its unread bytes.
abbrev pub Entry : Type 0
Entry = FlowController × ℕ

pub record Conn : Type 0 where
  pub rtt : Option ℕ
  pub counter : ℕ
  pub live : List Entry

pub data Step (c : Config) (s : Conn) : Conn → Type 0 where
  open_stream :
      (window now : ℕ) → Step c s (record s { live = (new default_credit window now, 0) ∷ s.live })
  measure : (r : ℕ) → Step c s (record s { rtt = some r })
  update :
      (before after : List Entry) (fc : FlowController) (b now later : ℕ)
      (r : Option ℕ × ℕ × FlowController)
      → s.live ≡ before ++ ((fc, b) ∷ after)
      → next_window_update c s.rtt now later s.counter fc b ≡ some r
      → Step c s (record s { counter = r.1; live = before ++ ((r.2, b) ∷ after) })
  receive :
      (before after : List Entry) (fc fc' : FlowController) (b i : ℕ)
      → s.live ≡ before ++ ((fc, b) ∷ after)
      → consume_receive_window fc i ≡ ok fc'
      → Step c s (record s { live = before ++ ((fc', b + i) ∷ after) })
  read :
      (before after : List Entry) (fc : FlowController) (b k : ℕ)
      → s.live ≡ before ++ ((fc, b + k) ∷ after)
      → Step c s (record s { live = before ++ ((fc, b) ∷ after) })
  send :
      (before after : List Entry) (fc fc' : FlowController) (b i : ℕ)
      → s.live ≡ before ++ ((fc, b) ∷ after)
      → consume_send_window fc i ≡ ok fc'
      → Step c s (record s { live = before ++ ((fc', b) ∷ after) })
  credit :
      (before after : List Entry) (fc fc' : FlowController) (b i : ℕ)
      → s.live ≡ before ++ ((fc, b) ∷ after)
      → increase_send_window_by fc i ≡ ok fc'
      → Step c s (record s { live = before ++ ((fc', b) ∷ after) })
  drop_stream :
      (before after : List Entry) (fc : FlowController) (b counter : ℕ)
      → s.live ≡ before ++ ((fc, b) ∷ after)
      → drop s.counter fc ≡ some counter
      → Step c s (record s { counter = counter; live = before ++ after })

pub data Reach (c : Config) : Conn → Type 0 where
  here : Reach c (record { rtt = none; counter = 0; live = [] })
  next : {s t : Conn} → Reach c s → Step c s t → Reach c t

-- The bytes beyond the default, and the whole windows.
unfoldable pub extra : List Entry → ℕ
extra [] = 0
extra ((fc, b) ∷ es) = (fc.max_receive_window - default_credit) + extra es

unfoldable pub windows : List Entry → ℕ
windows [] = 0
windows ((fc, b) ∷ es) = fc.max_receive_window + windows es
