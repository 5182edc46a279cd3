-- ===== src/Client/Pool/Monitor.antt =====
-- services/tor-client/src/core/circuit.rs: `initialize`, and a round of the tasks
-- `spawn_circuit_monitor` and `spawn_circuit_keepalive`. A round has one instant, and no other task
-- takes the pool within it. An `EventKind` for the metrics is left out.
pub mod Sweeps
pub mod Start
use nopanic.Prelude.{
  ℕ, zero, suc, ◌-◌, ◌*◌, ◌%◌, ◌^◌, List, [], ◌∷◌, ◌++◌, map, retain, Bool, true, false, ◌&&◌,
  Result, ok, err, ◌>>=◌, length, remove, ltb, ◌==◌, min, if◌then◌else◌,
}
use nopanic.Protocol.Wire.{Reader, write_to_stream}
use nopanic.Protocol.Messages
use nopanic.Crypto.Library.{Crypto}
use nopanic.Client.Circuit.{Circuit, CircuitState, dirty, closed, active_stream_count, send_raw}
use nopanic.Client.Pool.{
  BuildError, CircuitPool, Builds, is_ready_state, build_circuit, replace_circuit, is_abandoned,
  failures, expire_aged_circuits,
}

-- What the monitor does beside its changes of the pool: a sleep in nanoseconds, or the reader task
-- of the circuit with an id.
pub data MonitorEvent : Type 0 where
  sleeps : ℕ → MonitorEvent
  spawns : ℕ → Reader → MonitorEvent

abbrev pub is_dirty_state : CircuitState → Bool
is_dirty_state dirty = true
is_dirty_state _ = false

abbrev pub is_closed_state : CircuitState → Bool
is_closed_state closed = true
is_closed_state _ = false

abbrev pub spawned : Result BuildError (ℕ × Reader) → List MonitorEvent
spawned (ok (id, reader)) = spawns id reader ∷ []
spawned (err e) = []

-- The seconds between two attempts at one slot; the shift and the product wrap round in 64 bits.
unfoldable pub backoff_secs : ℕ → ℕ
backoff_secs failures = min (5 * 2 ^ (failures % 64) % 18446744073709551616) 60

-- The sleep before a replacement: what the backoff has above the interval of the monitor.
unfoldable pub backoff : ℕ → ℕ → List MonitorEvent
unfolding backoff_secs
backoff check_interval failures =
    let nanos = backoff_secs failures * 1000000000 in
    if ltb check_interval nanos then sleeps (nanos - check_interval) ∷ [] else []

module _ (lib : Crypto) where
  module _ (builds : Builds lib) (now : ℕ) where
    -- The loop of `initialize`, which ends at the first circuit that cannot be built.
    unfoldable pub build_circuits :
        ℕ → CircuitPool lib → Result BuildError (List (ℕ × Reader)) × CircuitPool lib
    build_circuits zero p = (ok [], p)
    build_circuits (suc n) p =
        let (built, p') = build_circuit lib builds now p in
        elim built [
          | err e ↦ (err e, p')
          | ok first ↦
              let (rest, p'') = build_circuits n p' in
              (rest >>= λ readers. ok (first ∷ readers), p'')
        ]

    unfoldable pub initialize :
        CircuitPool lib → Result BuildError (List (ℕ × Reader)) × CircuitPool lib
    unfolding build_circuits
    initialize p = build_circuits p.pool_size p

    -- Circuits beside the expired ones; one that cannot be built is passed over.
    unfoldable pub build_replacements : ℕ → CircuitPool lib → List MonitorEvent × CircuitPool lib
    build_replacements zero p = ([], p)
    build_replacements (suc n) p =
        let (built, p') = build_circuit lib builds now p in
        let (events, p'') = build_replacements n p' in (spawned built ++ events, p'')

    -- One closed circuit, unless its slot is given up.
    unfoldable pub replace_closed : ℕ → ℕ → CircuitPool lib → List MonitorEvent × CircuitPool lib
    unfolding backoff
    replace_closed check_interval id p =
        if is_abandoned lib p id
        then ([], p)
        else (let (built, p') = replace_circuit lib builds now id p in
            (backoff check_interval (failures lib p id) ++ spawned built, p'))

    unfoldable pub replace_all : ℕ → List ℕ → CircuitPool lib → List MonitorEvent × CircuitPool lib
    unfolding replace_closed
    replace_all check_interval [] p = ([], p)
    replace_all check_interval (id ∷ ids) p =
        let (events, p') = replace_closed check_interval id p in
        let (more, p'') = replace_all check_interval ids p' in (events ++ more, p'')

  abbrev pub is_idle_dirty : ℕ × Circuit lib → Bool
  is_idle_dirty (id, c) = is_dirty_state c.state && (active_stream_count lib c == 0)

  abbrev pub is_failed : ℕ × Circuit lib → Bool
  is_failed (id, c) = is_closed_state c.state

  -- The ids of the circuits that a test takes.
  abbrev pub ids_of : (ℕ × Circuit lib → Bool) → List (ℕ × Circuit lib) → List ℕ
  ids_of t circuits = map (λ (id, c). id) (retain t circuits)

  unfoldable pub remove_all : List ℕ → List (ℕ × Circuit lib) → List (ℕ × Circuit lib)
  remove_all [] circuits = circuits
  remove_all (id ∷ ids) circuits = remove_all ids (remove id circuits)

  -- Dirty circuits whose streams have finished leave the pool.
  unfoldable pub clean_up_dirty : CircuitPool lib → CircuitPool lib
  unfolding remove_all
  clean_up_dirty p = record p { circuits = remove_all (ids_of is_idle_dirty p.circuits) p.circuits }

  unfoldable pub monitor_round :
      Builds lib → ℕ → ℕ → CircuitPool lib → List MonitorEvent × CircuitPool lib
  unfolding build_replacements replace_all clean_up_dirty
  monitor_round builds now check_interval p =
      let (expired, aged) = expire_aged_circuits lib now p in
      let (events, grown) = build_replacements builds now (length expired) aged in
      let clean = clean_up_dirty grown in
      let (more, p') =
        replace_all builds now check_interval (ids_of is_failed clean.circuits) clean in
      (events ++ more, p')

  -- A PADDING cell on each ready circuit, with its random bytes; a failure to write is passed over.
  unfoldable pub keepalive_round : (ℕ → ℕ) → (ℕ → List ℕ) → CircuitPool lib → CircuitPool lib
  keepalive_round rng random p = record p { circuits = map pad p.circuits }
    where
      pad : ℕ × Circuit lib → ℕ × Circuit lib
      pad (id, c) =
          if is_ready_state c.state
          then (let m = Messages.padding c.circuit_id (random id) in
              (id, record c { entry_writer = (write_to_stream rng m c.entry_writer).1 }))
          else (id, c)
