-- ===== src/Relay/Connection.antt =====
-- services/relay-node/src/main.rs: `handle_connection`, the loop over the cells of one connection to
-- a relay. The registry is the relay's, which all its connections share, and the writer is also that
-- of the tasks of its circuits: what they do to either between two rounds is an argument, for each
-- round of its own. What they write within a round is taken before it.
pub mod Keyed
use nopanic.Prelude.{
  ℕ, zero, suc, List, [], ◌∷◌, ◌++◌, Bool, true, false, Option, none, some, Result, ok, err, find,
  if◌then◌else◌,
}
use nopanic.Protocol.{Message, MessageCommand, command_eq}
use nopanic.Protocol.Wire.{Reader, Writer, IoError, from_stream, write_to_stream}
use nopanic.Crypto.Library.{Crypto}
use nopanic.Discovery.{NodeType}
use nopanic.Relay.Context.{World, HandlerError, KeyPair}
use nopanic.Relay.Entry.{new_entry}
use nopanic.Relay.Middle.{new_middle}
use nopanic.Relay.Exit.{new_exit}
use nopanic.Relay.Handler.{
  CircuitHandler, entry, middle, exit, CircuitRegistry, Handled, handle_message, add_circuit,
  registry_handle_message,
}
use nopanic.Relay.Reader.{nexthop_reader}

module _ (lib : Crypto) where
  -- The handler that is made for a CREATE.
  unfoldable pub handler_for : NodeType → ℕ → KeyPair → CircuitHandler lib
  unfolding new_entry new_middle new_exit
  handler_for NodeType.entry circuit_id keypair = entry (new_entry lib circuit_id keypair)
  handler_for NodeType.middle circuit_id keypair = middle (new_middle lib circuit_id keypair)
  handler_for NodeType.exit circuit_id keypair = exit (new_exit lib circuit_id keypair)

  -- What the loop acts on, with the reader tasks that it has spawned, each with its circuit.
  pub record Connection : Type 0 where
    pub registry : CircuitRegistry lib
    pub write : Writer
    pub readers : List (ℕ × Reader)

  -- What a round finds: what the outside answers in it, what other tasks have done since the round
  -- before, and what they do to the registry before a new circuit is entered, when its lock is free.
  -- For another cell the lock is held from its handling to the spawn of a reader.
  pub record Surroundings : Type 0 where
    pub world : World
    pub before_cell : CircuitRegistry lib × Writer → CircuitRegistry lib × Writer
    pub before_entry : CircuitRegistry lib → CircuitRegistry lib

  -- The shared writer, as the handlers leave it.
  left_writer : Writer → Option Writer → Writer
  left_writer old none = old
  left_writer old (some w) = w

  -- The answer to CREATE: the circuit is entered when CREATED is written.
  created_response : Surroundings → ℕ → Connection → Handled lib → Bool × Connection
  unfolding left_writer
  created_response round circuit_id c (err e, h, w) =
      (false, record c { write = left_writer c.write w })
  created_response round circuit_id c (ok none, h, w) =
      (true, record c { write = left_writer c.write w })
  created_response round circuit_id c (ok (some response), h, w) =
      let (sent, write) = write_to_stream round.world.rng response (left_writer c.write w) in
      elim sent [
        | err e ↦ (false, record c { write = write })
        | ok _ ↦ (
          true,
          record c {
            write = write;
            registry = add_circuit lib (round.before_entry c.registry) circuit_id h;
          },
        )
      ]

  spawns_reader : MessageCommand → Bool
  spawns_reader MessageCommand.extended = true
  spawns_reader MessageCommand.extend = true
  spawns_reader _ = false

  -- The circuit's next hop gets a reader task, once.
  unfoldable pub spawn_reader : ℕ → Connection → Connection
  spawn_reader circuit_id c = elim (find circuit_id c.registry.circuits) [
    | none ↦ c
    | some h ↦
        let (reader, h') = nexthop_reader lib h in
        elim reader [
          | none ↦ c
          | some r ↦ record c {
            registry = add_circuit lib c.registry circuit_id h';
            readers = c.readers ++ ((circuit_id, r) ∷ []);
          }
        ]
  ]

  spawn_after : Message → Connection → Bool × Connection
  unfolding spawn_reader spawns_reader
  spawn_after m c = (true, if spawns_reader m.command then spawn_reader m.circuit_id c else c)

  -- The answer of the registry to another cell.
  response :
      World
      → Message
      → Connection
      → Result HandlerError (Option Message) × CircuitRegistry lib × Option Writer
      → Bool × Connection
  unfolding left_writer spawn_after
  response world m c (err e, registry, w) =
      (false, record c { registry = registry; write = left_writer c.write w })
  response world m c (ok none, registry, w) =
      spawn_after m (record c { registry = registry; write = left_writer c.write w })
  response world m c (ok (some answer), registry, w) =
      let (sent, write) = write_to_stream world.rng answer (left_writer c.write w) in
      let c' = record c { registry = registry; write = write } in
      elim sent [ err e ↦ (false, c') | ok _ ↦ spawn_after m c' ]

  -- The connection as a round finds it.
  unfoldable pub as_found : Surroundings → Connection → Connection
  as_found round c =
      let (registry, write) = round.before_cell (c.registry, c.write) in
      record c { registry = registry; write = write }

  -- One round of the loop, on what was read: whether it goes on.
  unfoldable pub connection_round :
      NodeType
      → KeyPair
      → Surroundings
      → Connection
      → Result IoError (Option Message)
      → Bool × Connection
  unfolding created_response response handler_for
  connection_round node_type keypair round c (err e) = (false, c)
  connection_round node_type keypair round c (ok none) = (false, c)
  connection_round node_type keypair round c (ok (some m)) =
      if command_eq m.command MessageCommand.create
      then created_response round m.circuit_id c (
          handle_message lib round.world (handler_for node_type m.circuit_id keypair) m
            (some c.write))
      else response round.world m c
          (registry_handle_message lib round.world c.registry m (some c.write))

  -- The loop, over what each round finds and with fuel for the rounds; `none` where it runs out.
  unfoldable pub handle_connection :
      NodeType → KeyPair → (ℕ → Surroundings) → ℕ → Reader → Connection → Option Connection
  unfolding connection_round as_found
  handle_connection node_type keypair rounds zero reader c = none
  handle_connection node_type keypair rounds (suc fuel) reader c =
      let (read, reader') = from_stream reader in
      let (goes_on, c') =
        connection_round node_type keypair (rounds fuel) (as_found (rounds fuel) c) read in
      let rest = handle_connection node_type keypair rounds fuel reader' c' in
      if goes_on then rest else some c'
