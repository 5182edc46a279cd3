-- ===== src/Relay/Exit/Tasks.antt =====
-- services/relay-node/src/circuit/exit.rs: `spawn_stream_tasks`, the task between a destination and
-- the circuit.
use nopanic.Prelude.{ℕ, List, [], ◌∷◌, ◌++◌, Bool, true, false, Result, ok, err, chunks}
use nopanic.Error.{TorError}
use nopanic.Protocol.{MessageCommand, max_payload_size}
use nopanic.Protocol.Wire.{Writer, write_to_stream}
use nopanic.Crypto.Library.{Crypto}
use nopanic.Relay.Exit.{ExitCryptoState, seal_cell}

-- "Read error: "
abbrev read_error_text : List ℕ
read_error_text =
    b'R' ∷ b'e' ∷ b'a' ∷ b'd' ∷ b' ' ∷ b'e' ∷ b'r' ∷ b'r' ∷ b'o' ∷ b'r' ∷ b':' ∷ b' ' ∷ []

-- What `tokio::select!` wakes up on: the destination has closed, has sent bytes, or fails with a
-- text; or the handler has queued bytes, which the destination takes or refuses, or is gone.
pub data TaskEvent : Type 0 where
  dest_closed : TaskEvent
  received : List ℕ → TaskEvent
  read_failed : List ℕ → TaskEvent
  queued_data : List ℕ → Bool → TaskEvent
  channel_closed : TaskEvent

module _ (lib : Crypto) where
  -- What the task shares with the handler, and what the destination was sent.
  pub record StreamTask : Type 0 where
    pub shared_state : ExitCryptoState lib
    pub prev_hop_write : Writer
    pub dest_written : List ℕ

  -- A cell is sealed and written; the digest and the layer have moved on where the write fails.
  unfoldable pub send_back :
      (ℕ → ℕ)
      → ℕ
      → ℕ
      → MessageCommand
      → List ℕ
      → StreamTask
      → Result TorError (Unit {0}) × StreamTask
  send_back rng circuit_id stream_id command bytes t =
      let (m, s') = seal_cell lib t.shared_state circuit_id stream_id command bytes in
      let (sent, writer) = write_to_stream rng m t.prev_hop_write in
      (sent, record t { shared_state = s'; prev_hop_write = writer })

  -- The loop over the chunks, which ends with the first write that fails: whether none did.
  unfoldable pub send_chunks : (ℕ → ℕ) → ℕ → ℕ → List (List ℕ) → StreamTask → Bool × StreamTask
  send_chunks rng circuit_id stream_id [] t = (true, t)
  send_chunks rng circuit_id stream_id (chunk ∷ rest) t =
      let (sent, t') = send_back rng circuit_id stream_id MessageCommand.data_cell chunk t in
      let next = send_chunks rng circuit_id stream_id rest t' in
      elim sent [ err e ↦ (false, t') | ok _ ↦ next ]

  -- One round of the loop: whether it goes on.
  unfoldable pub task_round : (ℕ → ℕ) → ℕ → ℕ → TaskEvent → StreamTask → Bool × StreamTask
  task_round rng circuit_id stream_id dest_closed t =
      (false, (send_back rng circuit_id stream_id MessageCommand.end [] t).1)
  task_round rng circuit_id stream_id (received bytes) t =
      send_chunks rng circuit_id stream_id (chunks max_payload_size bytes) t
  task_round rng circuit_id stream_id (read_failed text) t =
      (false, (send_back rng circuit_id stream_id MessageCommand.end (read_error_text ++ text) t).1)
  task_round rng circuit_id stream_id (queued_data bytes true) t =
      (true, record t { dest_written = t.dest_written ++ bytes })
  task_round rng circuit_id stream_id (queued_data bytes false) t = (false, t)
  task_round rng circuit_id stream_id channel_closed t = (false, t)

  -- The loop over the events that come.
  unfoldable pub run_task : (ℕ → ℕ) → ℕ → ℕ → List TaskEvent → StreamTask → Bool × StreamTask
  unfolding task_round
  run_task rng circuit_id stream_id [] t = (true, t)
  run_task rng circuit_id stream_id (event ∷ rest) t =
      let (goes_on, t') = task_round rng circuit_id stream_id event t in
      let next = run_task rng circuit_id stream_id rest t' in
      elim goes_on [ false ↦ (false, t') | true ↦ next ]
