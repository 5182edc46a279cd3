-- ===== src/Tests/Pool.antt =====
-- A pool of two circuits, the second with fewer streams.
use nopanic.Prelude.{
  ap, sym, ok-inj, map, some, leb, ltb, ◌&&◌, if◌then◌else◌, ℕ, ◌≡◌, refl, List, [], ◌∷◌, false,
  none, ok, err, find, arith,
}
use nopanic.Crypto.Toy.{toy}
use nopanic.Protocol.Wire.{Reader}
use nopanic.Client.Circuit.{Circuit, Sender, ready, dirty, closed, active_stream_count}
use nopanic.Client.Pool.{no_path, CircuitPool, Builds, best_of, select_circuit, replace_circuit}
use nopanic.Client.Pool.Least.{Unique, LeastLoaded, select_circuit-LeastLoaded}
use nopanic.Client.Pool.Replace.{Failed, replace_circuit-Failed}
use nopanic.Client.Pool.Monitor.{initialize, monitor_round}
use nopanic.Client.Pool.Monitor.Sweeps.{Swept, monitor_round-Swept}
use nopanic.Client.Pool.Monitor.Start.{upto, initialize-Filled}
use nopanic.Network.{idle}

abbrev circuit : ℕ → List (ℕ × Sender) → Circuit toy
circuit id senders = record {
  circuit_id = id;
  state = ready;
  entry_writer = idle;
  onion_keys = record {
    session_keys = [];
    ciphers = [];
    forward_digest = [];
    backward_digest = [];
  };
  stream_senders = senders;
  next_stream_id = 1;
}

abbrev sender : Sender
sender = record { receiver_gone = false; sent = [] }

abbrev pool : CircuitPool toy
pool = record {
  circuits = (1, circuit 1 ((1, sender) ∷ [])) ∷ (2, circuit 2 []) ∷ [];
  next_circuit_id = 3;
  pool_size = 2;
  hop_count = 3;
  max_rebuild_attempts = 3;
  rebuild_failure_counts = [];
  abandoned_slots = [];
  circuit_ages = [];
  max_circuit_age = 600000000000;
}

abbrev no_builds : Builds toy
no_builds id hops = err no_path

pool-Unique : Unique toy pool.circuits
pool-Unique = (((λ e. omega (arith, e)), tt), (tt, tt))

second_selected : (select_circuit toy no_builds 0 pool).0 ≡ ok (2, none)
unfolding select_circuit best_of find active_stream_count
second_selected = refl

select_circuit-LeastLoaded_example :
    LeastLoaded toy 2 pool × ((select_circuit toy no_builds 0 pool).1 ≡ pool)
select_circuit-LeastLoaded_example =
    select_circuit-LeastLoaded toy no_builds 0 pool 2 pool-Unique second_selected

replace_circuit-Failed_example :
    ((replace_circuit toy no_builds 0 1 pool).0 ≡ err no_path)
    × Failed toy 1 2 pool (replace_circuit toy no_builds 0 1 pool).1
replace_circuit-Failed_example =
    replace_circuit-Failed toy no_builds 0 1 2 pool no_path refl (omega arith)

abbrev silent : Reader
silent = record { incoming = []; broken = false }

abbrev builds : Builds toy
builds id hops = ok (circuit id [], silent)

builds_ready :
    (id hops : ℕ) (c : Circuit toy) (reader : Reader)
    → builds id hops ≡ ok (c, reader)
    → c.state ≡ ready
builds_ready id hops c reader h = ap (λ (d, _). d.state) (sym (ok-inj h))

-- The first circuit is dirty without streams, the second is closed, and the third dirty and in use.
abbrev worn_pool : CircuitPool toy
worn_pool = record pool {
  circuits =
      (1, record (circuit 1 []) { state = dirty })
      ∷ (2, record (circuit 2 []) { state = closed })
      ∷ (3, record (circuit 3 ((1, sender) ∷ [])) { state = dirty })
      ∷ [];
  next_circuit_id = 4;
}

monitor_round-Swept_example : Swept toy (monitor_round toy builds 0 10000000000 worn_pool).1
monitor_round-Swept_example = monitor_round-Swept toy builds 0 builds_ready 10000000000 worn_pool

initialize-Filled_example :
    ((initialize toy builds 0 pool).0 ≡ ok (map (λ k. (k, silent)) (upto 3 2)))
    × ((k : ℕ)
        → find k (initialize toy builds 0 pool).1.circuits
          ≡ (if leb 3 k && ltb k 5 then some (circuit k []) else find k pool.circuits))
initialize-Filled_example =
    initialize-Filled toy builds 0 (λ k. circuit k []) (λ k. silent) pool (omega arith) (λ k. refl)
