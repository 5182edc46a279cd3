-- ===== src/Client/Pool.antt =====
-- services/tor-client/src/core/circuit.rs: `CircuitPool`. A circuit behind its `Arc<Mutex<_>>` is
-- the entry of its id; instants and ages are in nanoseconds; metrics are left out.
pub mod Least
pub mod Replace
pub mod Monitor
use nopanic.Prelude.{
  ℕ, suc, ◌+◌, ◌-◌, ◌%◌, List, [], ◌∷◌, ◌++◌, Option, none, some, Bool, true, false, Result, ok,
  err, length, find, insert, remove, contains, ltb, leb, ◌==◌, if◌then◌else◌,
}
use nopanic.Protocol.Wire.{Reader}
use nopanic.Crypto.Library.{Crypto}
use nopanic.Client.Circuit.{Circuit, CircuitState, ready, dirty, active_stream_count}

-- Why no circuit was built, and the answer where an id that was just there is gone.
pub data BuildError : Type 0 where
  no_path not_built disappeared : BuildError

abbrev pub is_ready_state : CircuitState → Bool
is_ready_state ready = true
is_ready_state _ = false

module _ (lib : Crypto) where
  pub record CircuitPool : Type 0 where
    pub circuits : List (ℕ × Circuit lib)
    pub next_circuit_id : ℕ
    pub pool_size : ℕ
    pub hop_count : ℕ
    pub max_rebuild_attempts : ℕ
    pub rebuild_failure_counts : List (ℕ × ℕ)
    pub abandoned_slots : List ℕ
    pub circuit_ages : List (ℕ × ℕ)
    pub max_circuit_age : ℕ

  unfoldable pub new_pool : ℕ → ℕ → ℕ → CircuitPool
  new_pool pool_size hop_count max_rebuild_attempts = record {
    circuits = [];
    next_circuit_id = 1;
    pool_size = pool_size;
    hop_count = hop_count;
    max_rebuild_attempts = max_rebuild_attempts;
    rebuild_failure_counts = [];
    abandoned_slots = [];
    circuit_ages = [];
    max_circuit_age = 600000000000;
  }

  -- What the directory, the transport and the handshakes make of the request for a circuit with an
  -- id and a number of hops.
  abbrev pub Builds : Type 0
  Builds = ℕ → ℕ → Result BuildError (Circuit lib × Reader)

  unfoldable pub allocate_circuit_id : CircuitPool → ℕ × CircuitPool
  allocate_circuit_id p =
      (p.next_circuit_id, record p { next_circuit_id = (p.next_circuit_id + 1) % 4294967296 })

  abbrev pub enter :
      ℕ
      → ℕ
      → CircuitPool
      → Result BuildError (Circuit lib × Reader)
      → Result BuildError (ℕ × Reader) × CircuitPool
  enter now id p (err e) = (err e, p)
  enter now id p (ok (circuit, reader)) = (
    ok (id, reader),
    record p {
      circuits = insert id circuit p.circuits;
      circuit_ages = insert id now p.circuit_ages;
    },
  )

  unfoldable pub build_circuit :
      Builds → ℕ → CircuitPool → Result BuildError (ℕ × Reader) × CircuitPool
  unfolding allocate_circuit_id
  build_circuit builds now p =
      let (id, p') = allocate_circuit_id p in enter now id p' (builds id p.hop_count)

  -- One circuit in the loop of `select_circuit`, with the best id and count so far.
  abbrev pub better : Option (ℕ × ℕ) → ℕ → Circuit lib → Option (ℕ × ℕ)
  better none id c = if is_ready_state c.state then some (id, active_stream_count lib c) else none
  better (some (best, n)) id c =
      if is_ready_state c.state
      then (if ltb (active_stream_count lib c) n
          then some (id, active_stream_count lib c)
          else some (best, n))
      else some (best, n)

  unfoldable pub best_of : Option (ℕ × ℕ) → List (ℕ × Circuit lib) → Option (ℕ × ℕ)
  best_of best [] = best
  best_of best ((id, c) ∷ rest) = best_of (better best id c) rest

  abbrev pub with_reader : Result BuildError (ℕ × Reader) → Result BuildError (ℕ × Option Reader)
  with_reader (err e) = err e
  with_reader (ok (id, reader)) = ok (id, some reader)

  -- The id of the circuit that is selected, and its reader where it was built for this call.
  unfoldable pub select_circuit :
      Builds → ℕ → CircuitPool → Result BuildError (ℕ × Option Reader) × CircuitPool
  select_circuit builds now p = elim (best_of none p.circuits) [
    | some (id, n) ↦ elim (find id p.circuits) [
      | none ↦ (err disappeared, p)
      | some circuit ↦ (ok (id, none), p)
    ]
    | none ↦ (let (built, p') = build_circuit builds now p in (with_reader built, p'))
  ]

  unfoldable pub is_abandoned : CircuitPool → ℕ → Bool
  is_abandoned p id = contains ◌==◌ id p.abandoned_slots

  abbrev pub failures : CircuitPool → ℕ → ℕ
  failures p id = elim (find id p.rebuild_failure_counts) [ none ↦ 0 | some n ↦ n ]

  abbrev pub after_build :
      ℕ
      → Result BuildError (ℕ × Reader) × CircuitPool
      → Result BuildError (ℕ × Reader) × CircuitPool
  after_build failed_id (ok (id, reader), p) = (
    ok (id, reader),
    record p { rebuild_failure_counts = remove failed_id p.rebuild_failure_counts },
  )
  after_build failed_id (err e, p) =
      let count = failures p failed_id + 1 in
      let counted = record p {
        rebuild_failure_counts = insert failed_id count p.rebuild_failure_counts;
      } in
      (
        err e,
        if leb p.max_rebuild_attempts count
            then record counted { abandoned_slots = failed_id ∷ p.abandoned_slots }
            else counted,
      )

  unfoldable pub replace_circuit :
      Builds → ℕ → ℕ → CircuitPool → Result BuildError (ℕ × Reader) × CircuitPool
  replace_circuit builds now failed_id p =
      after_build failed_id
        (build_circuit builds now (record p { circuits = remove failed_id p.circuits }))

  -- `expire_aged_circuits`, over the ages that have run out.
  abbrev pub expire_one : ℕ → List ℕ × CircuitPool → List ℕ × CircuitPool
  expire_one id (aged_out, p) = elim (find id p.circuits) [
    | none ↦ (aged_out, p)
    | some c ↦
        if is_ready_state c.state
        then (
          aged_out ++ (id ∷ []),
          record p {
            circuits = insert id (record c { state = dirty }) p.circuits;
            circuit_ages = remove id p.circuit_ages;
          },
        )
        else (aged_out, p)
  ]

  unfoldable pub expire : ℕ → ℕ → List (ℕ × ℕ) → List ℕ × CircuitPool → List ℕ × CircuitPool
  expire now max_age [] out = out
  expire now max_age ((id, created) ∷ ages) out =
      expire now max_age ages (if leb max_age (now - created) then expire_one id out else out)

  unfoldable pub expire_aged_circuits : ℕ → CircuitPool → List ℕ × CircuitPool
  unfolding expire
  expire_aged_circuits now p = expire now p.max_circuit_age p.circuit_ages ([], p)
