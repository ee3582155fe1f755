-- ===== src/Action.antt =====
-- connection.rs: what the connection does about an incoming frame. `S` is the handle of a stream.
use rust_yamux.Frame.{Frame}

pub data Action (S : Type 0) : Type 0 where
  no_action : Action S
  new_stream : S → Action S
  ping terminate : Frame → Action S
