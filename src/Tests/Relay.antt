-- ===== src/Tests/Relay.antt =====
-- The tasks of a relay.
use nopanic.Prelude.{
  ℕ, sym, append-nil, ◌++◌, ◌<◌, length, length-append, ◌≡◌, refl, [], ◌∷◌, true, false, none, some,
  ok, arith, replicate,
}
use nopanic.Crypto.Toy.{toy}
use nopanic.Protocol.Wire.{Reader}
use nopanic.Protocol.Codec.{to_bytes}
use nopanic.Protocol.Codec.Layout.{length-to_bytes}
use nopanic.Protocol.Messages
use nopanic.Discovery.{NodeType}
use nopanic.Relay.Handler.{add_circuit}
use nopanic.Relay.Connection.{Connection, Surroundings, handler_for, handle_connection}
use nopanic.Relay.Connection.Keyed.{Keyed, Keeps, add_circuit-Keyed, handle_connection-Keyed}
use nopanic.Relay.Context.{World, KeyPair}
use nopanic.Relay.Reader.{Task, Moment, run_reader}
use nopanic.Relay.Reader.Stops.{Shut, Wrote, run_reader-Shut}

abbrev world : World
world = record {
  rng = λ i. i;
  ephemeral = 9 ∷ [];
  parse_addr = λ addr. true;
  dial = λ addr fingerprint. none;
  connect = λ dest. ok tt;
}

abbrev task : Task toy
task = record {
  registry = record { circuits = []; next_circuit_id = 1 };
  prev_hop_write = record { written = []; broken = false };
}

abbrev reader : Reader
reader = record { incoming = replicate 600 1; broken = false }

-- Between two rounds another circuit of the connection answers with a cell.
abbrev moment : ℕ → Moment toy
moment n = record {
  world = world;
  others = λ t. record t {
    prev_hop_write = record t.prev_hop_write {
      written = t.prev_hop_write.written ++ to_bytes (λ i. n) (Messages.created 6 []);
    };
  };
}

moment-Wrote :
    (n : ℕ) (t : Task toy)
    → t.prev_hop_write.broken ≡ false
    → Wrote t.prev_hop_write.written ((moment n).others t).prev_hop_write
moment-Wrote n t works =
    let cell = to_bytes (λ i. n) (Messages.created 6 []) in
    (
      ((λ i. n), Messages.created 6 []) ∷ [],
      λ k. record {
        written = t.prev_hop_write.written ++ sym (append-nil cell) k;
        broken = works k;
      },
    )

run_reader-Shut_example :
    (t : Task toy) × (run_reader toy true moment 5 601 reader task ≡ some t) × Shut toy 5 [] t
run_reader-Shut_example =
    run_reader-Shut toy true moment 5 601 reader task moment-Wrote (omega arith) refl

abbrev keypair : KeyPair
keypair = record { public = toy.public_of (7 ∷ []); secret_bytes = 7 ∷ [] }

abbrev connection : Connection toy
connection = record {
  registry = record {
    circuits = (5, handler_for toy NodeType.entry 5 keypair) ∷ [];
    next_circuit_id = 1;
  };
  write = record { written = []; broken = false };
  readers = [];
}

connection-Keyed : Keyed toy NodeType.entry connection.registry
unfolding handler_for
connection-Keyed = ((refl, refl), tt)

-- A CREATE for another circuit, and the beginning of a cell.
abbrev cells : Reader
cells = record {
  incoming = to_bytes (λ i. i) (Messages.create 6 (replicate 32 1)) ++ (1 ∷ 2 ∷ []);
  broken = false;
}

cells_enough : length cells.incoming < 600
unfolding Messages.create Messages.circuit Messages.new
cells_enough =
    let m = Messages.create 6 (replicate 32 1) in
    omega (arith, length-append (to_bytes (λ i. i) m) (1 ∷ 2 ∷ []), length-to_bytes (λ i. i) m refl)

-- Before each cell another connection enters the circuit 9, and its other tasks write a byte.
abbrev round : ℕ → Surroundings toy
round n = record {
  world = world;
  before_cell = λ (r, w). (
    add_circuit toy r 9 (handler_for toy NodeType.entry 9 keypair),
    record w { written = w.written ++ (n ∷ []) },
  );
  before_entry = λ r. r;
}

round-Keeps : (n : ℕ) → Keeps toy NodeType.entry (round n)
unfolding handler_for
round-Keeps n = record {
  cell = λ r w ks.
      add_circuit-Keyed toy NodeType.entry r 9 (handler_for toy NodeType.entry 9 keypair) ks
        (refl, refl);
  entry = λ r ks. ks;
}

handle_connection-Keyed_example :
    (c : Connection toy) × (handle_connection toy NodeType.entry keypair round 600 cells connection
      ≡ some c)
    × Keyed toy NodeType.entry c.registry
handle_connection-Keyed_example =
    handle_connection-Keyed toy NodeType.entry keypair round 600 cells connection round-Keeps
      cells_enough connection-Keyed
