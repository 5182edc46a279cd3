-- ===== src/Relay/Exit/Streams.antt =====
-- services/relay-node/src/circuit/exit.rs: `ExitStream`.
use nopanic.Prelude.{ℕ, List, Bool}

-- The channel to the stream's task is the list of what was sent through it, oldest first; `closed`
-- says that the task has dropped its end.
pub record ExitStream : Type 0 where
  pub destination : List ℕ
  pub closed : Bool
  pub queued : List (List ℕ)
