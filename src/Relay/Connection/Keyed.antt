-- ===== src/Relay/Connection/Keyed.antt =====
-- services/relay-node/src/main.rs: the circuits of a relay's registry, over the loop of a connection.
use nopanic.Prelude.{
  ℕ, zero, suc, ◌≡◌, ◌<◌, ◌∙◌, refl, Bool, true, false, Option, none, some, Result, ok, err, length,
  find, All, All-insert, All-find, Bool-cases, Option-cases, inl, inr, arith,
}
use nopanic.Error.{TorError}
use nopanic.Protocol.{Message, MessageCommand, command_eq}
use nopanic.Protocol.Wire.{Reader, Writer, IoError, from_stream, write_to_stream}
use nopanic.Protocol.Wire.Progress.{from_stream-shorter}
use nopanic.Crypto.Library.{Crypto}
use nopanic.Discovery.{NodeType}
use nopanic.Relay.Context.{World, HandlerError, KeyPair}
use nopanic.Relay.Entry
use nopanic.Relay.Middle
use nopanic.Relay.Exit
use nopanic.Relay.Handler.{
  CircuitHandler, entry, middle, exit, own_id, CircuitRegistry, Handled, handle_message,
  add_circuit, registry_handle_message,
}
use nopanic.Relay.Reader.{nexthop_reader}
use nopanic.Relay.Connection.{
  Connection, Surroundings, as_found, handler_for, left_writer, created_response, spawns_reader,
  spawn_reader, spawn_after, response, connection_round, handle_connection,
}

module _ (lib : Crypto) (node_type : NodeType) where
  abbrev pub kind_of : CircuitHandler lib → NodeType
  kind_of (entry h) = NodeType.entry
  kind_of (middle h) = NodeType.middle
  kind_of (exit h) = NodeType.exit

  -- A circuit stands under its own id, and is of the relay's type.
  abbrev pub Belongs : ℕ × CircuitHandler lib → Type 0
  Belongs (k, h) = (own_id lib h ≡ k) × (kind_of h ≡ node_type)

  abbrev pub Keyed : CircuitRegistry lib → Type 0
  Keyed r = All Belongs r.circuits

  handler_for-Belongs :
      (circuit_id : ℕ) (keypair : KeyPair)
      → Belongs (circuit_id, handler_for lib node_type circuit_id keypair)
  unfolding handler_for
  handler_for-Belongs circuit_id keypair = made node_type
    where
      made :
          (kind : NodeType)
          → (own_id lib (handler_for lib kind circuit_id keypair) ≡ circuit_id)
            × (kind_of (handler_for lib kind circuit_id keypair) ≡ kind)
      made NodeType.entry = (refl, refl)
      made NodeType.middle = (refl, refl)
      made NodeType.exit = (refl, refl)

  handle_message-Belongs :
      (world : World) (k : ℕ) (h : CircuitHandler lib) (m : Message) (w : Option Writer)
      → Belongs (k, h)
      → Belongs (k, (handle_message lib world h m w).1)
  unfolding handle_message
  handle_message-Belongs world k (entry h) m w (i, t) =
      (Entry.Identity.handle_message-Same lib world h m ∙ i, t)
  handle_message-Belongs world k (middle h) m w (i, t) =
      (Middle.Identity.handle_message-Same lib world h m ∙ i, t)
  handle_message-Belongs world k (exit h) m w (i, t) =
      (Exit.Identity.handle_message-Same lib world h m w ∙ i, t)

  nexthop_reader-Belongs :
      (k : ℕ) (h : CircuitHandler lib) → Belongs (k, h) → Belongs (k, (nexthop_reader lib h).1)
  unfolding nexthop_reader
  nexthop_reader-Belongs k (entry h) b = b
  nexthop_reader-Belongs k (middle h) b = b
  nexthop_reader-Belongs k (exit h) b = b

  pub add_circuit-Keyed :
      (r : CircuitRegistry lib) (k : ℕ) (h : CircuitHandler lib)
      → Keyed r
      → Belongs (k, h)
      → Keyed (add_circuit lib r k h)
  unfolding add_circuit
  add_circuit-Keyed r k h ks b = All-insert Belongs k h r.circuits b ks

  registry_handle_message-Keyed :
      (world : World) (r : CircuitRegistry lib) (m : Message) (w : Option Writer)
      → Keyed r
      → Keyed (registry_handle_message lib world r m w).1
  unfolding registry_handle_message
  registry_handle_message-Keyed world r m w ks =
      elim (Option-cases (find m.circuit_id r.circuits)) [
        | inl e ↦ elim (Bool-cases (command_eq m.command MessageCommand.create)) [
          | inl c ↦ rw (e, registry_handle_message, c) ks
          | inr c ↦ rw (e, registry_handle_message, c) ks
        ]
        | inr (h, e) ↦
            rw (e, registry_handle_message)
              (add_circuit-Keyed r m.circuit_id (handle_message lib world h m w).1 ks (
                handle_message-Belongs world m.circuit_id h m w
                  (All-find Belongs m.circuit_id r.circuits h e ks)))
      ]

  spawn_reader-Keyed :
      (k : ℕ) (c : Connection lib) → Keyed c.registry → Keyed (spawn_reader lib k c).registry
  unfolding spawn_reader
  spawn_reader-Keyed k c ks = elim (Option-cases (find k c.registry.circuits)) [
    | inl e ↦ rw (e, spawn_reader) ks
    | inr (h, e) ↦ elim (Option-cases (nexthop_reader lib h).0) [
      | inl n ↦ rw (e, spawn_reader, n) ks
      | inr (reader, n) ↦
          rw (e, spawn_reader, n)
            (add_circuit-Keyed c.registry k (nexthop_reader lib h).1 ks
              (nexthop_reader-Belongs k h (All-find Belongs k c.registry.circuits h e ks)))
    ]
  ]

  spawn_after-Keyed :
      (m : Message) (c : Connection lib) → Keyed c.registry → Keyed (spawn_after lib m c).1.registry
  unfolding spawn_after
  spawn_after-Keyed m c ks = elim (Bool-cases (spawns_reader lib m.command)) [
    | inl e ↦ rw e (spawn_reader-Keyed m.circuit_id c ks)
    | inr e ↦ rw e ks
  ]

  -- What other tasks do keeps the registry so.
  pub record Keeps (round : Surroundings lib) : Type 0 where
    pub cell : (r : CircuitRegistry lib) (w : Writer) → Keyed r → Keyed (round.before_cell (r, w)).0
    pub entry : (r : CircuitRegistry lib) → Keyed r → Keyed (round.before_entry r)

  module _ (round : Surroundings lib) (keeps : Keeps round) where
    created_sent-Keyed :
        (c c' : Connection lib) (sent : Result TorError (Unit {0}))
        → Keyed c.registry
        → Keyed c'.registry
        → Keyed
            (elim sent as (λ x. Bool × Connection lib) [
              | err e ↦ (false, c)
              | ok _ ↦ (true, c')
            ]).1.registry
    created_sent-Keyed c c' (err e) ks ks' = ks
    created_sent-Keyed c c' (ok _) ks ks' = ks'

    created_response-Keyed :
        (k : ℕ) (c : Connection lib) (r : Handled lib)
        → Keyed c.registry
        → Belongs (k, r.1)
        → Keyed (created_response lib round k c r).1.registry
    unfolding created_response
    created_response-Keyed k c (err e, h, w) ks b = ks
    created_response-Keyed k c (ok none, h, w) ks b = ks
    created_response-Keyed k c (ok (some response), h, w) ks b =
        let (sent, write) = write_to_stream round.world.rng response (left_writer lib c.write w) in
        let c1 : Connection lib = record c { write = write } in
        let c2 : Connection lib = record c {
          write = write;
          registry = add_circuit lib (round.before_entry c.registry) k h;
        } in
        created_sent-Keyed c1 c2 sent ks
          (add_circuit-Keyed (round.before_entry c.registry) k h (keeps.entry c.registry ks) b)

    response_sent-Keyed :
        (m : Message) (c : Connection lib) (sent : Result TorError (Unit {0}))
        → Keyed c.registry
        → Keyed
            (elim sent as (λ x. Bool × Connection lib) [
              | err e ↦ (false, c)
              | ok _ ↦ spawn_after lib m c
            ]).1.registry
    response_sent-Keyed m c (err e) ks = ks
    response_sent-Keyed m c (ok _) ks = spawn_after-Keyed m c ks

    response-Keyed :
        (m : Message) (c : Connection lib)
        (r : Result HandlerError (Option Message) × CircuitRegistry lib × Option Writer)
        → Keyed r.1
        → Keyed (response lib round.world m c r).1.registry
    unfolding response
    response-Keyed m c (err e, registry, w) ks = ks
    response-Keyed m c (ok none, registry, w) ks =
        spawn_after-Keyed m (record c { registry = registry; write = left_writer lib c.write w }) ks
    response-Keyed m c (ok (some answer), registry, w) ks =
        let (sent, write) = write_to_stream round.world.rng answer (left_writer lib c.write w) in
        response_sent-Keyed m (record c { registry = registry; write = write }) sent ks

    connection_round-Keyed :
        (keypair : KeyPair) (c : Connection lib) (read : Result IoError (Option Message))
        → Keyed c.registry
        → Keyed (connection_round lib node_type keypair round c read).1.registry
    unfolding connection_round
    connection_round-Keyed keypair c (err e) ks = ks
    connection_round-Keyed keypair c (ok none) ks = ks
    connection_round-Keyed keypair c (ok (some m)) ks =
        let h = handler_for lib node_type m.circuit_id keypair in
        elim (Bool-cases (command_eq m.command MessageCommand.create)) [
          | inl e ↦
              rw (e, connection_round)
                (created_response-Keyed m.circuit_id c
                  (handle_message lib round.world h m (some c.write)) ks
                  (handle_message-Belongs round.world m.circuit_id h m (some c.write)
                    (handler_for-Belongs m.circuit_id keypair)))
          | inr e ↦
              rw (e, connection_round)
                (response-Keyed m c
                  (registry_handle_message lib round.world c.registry m (some c.write))
                  (registry_handle_message-Keyed round.world c.registry m (some c.write) ks))
        ]

    goes_on-cell :
        (keypair : KeyPair) (c : Connection lib) (read : Result IoError (Option Message))
        → (connection_round lib node_type keypair round c read).0 ≡ true
        → (m : Message) × (read ≡ ok (some m))
    unfolding connection_round
    goes_on-cell keypair c (err e) h = absurd (ground (arith, h))
    goes_on-cell keypair c (ok none) h = absurd (ground (arith, h))
    goes_on-cell keypair c (ok (some m)) h = (m, refl)

    as_found-Keyed : (c : Connection lib) → Keyed c.registry → Keyed (as_found lib round c).registry
    unfolding as_found
    as_found-Keyed c ks = keeps.cell c.registry c.write ks

  -- With fuel for every byte that is to come, the loop of a connection ends, whatever the peer
  -- sends and the outside answers; and where before it every circuit of the registry stood under its
  -- own id and was of the relay's type, and what other tasks do to it meanwhile keeps that, so it is
  -- afterwards.
  pub handle_connection-Keyed :
      (keypair : KeyPair) (rounds : ℕ → Surroundings lib) (fuel : ℕ) (reader : Reader)
      (c : Connection lib)
      → ((n : ℕ) → Keeps (rounds n))
      → length reader.incoming < fuel
      → Keyed c.registry
      → (c' : Connection lib) × (handle_connection lib node_type keypair rounds fuel reader c
          ≡ some c')
        × Keyed c'.registry
  unfolding handle_connection
  handle_connection-Keyed keypair rounds zero reader c keeps enough ks = absurd (omega arith)
  handle_connection-Keyed keypair rounds (suc fuel) reader c keeps enough ks =
      let read = (from_stream reader).0 in
      let here = as_found lib (rounds fuel) c in
      let round = connection_round lib node_type keypair (rounds fuel) here read in
      let found = as_found-Keyed (rounds fuel) (keeps fuel) c ks in
      let ks' = connection_round-Keyed (rounds fuel) (keeps fuel) keypair here read found in
      elim (Bool-cases round.0) [
        | inl q ↦
            let (m, cell) = goes_on-cell (rounds fuel) (keeps fuel) keypair here read q in
            rw q (
              handle_connection-Keyed keypair rounds fuel (from_stream reader).1 round.1 keeps
                (omega (arith, from_stream-shorter reader m cell)) ks')
        | inr q ↦ rw q (round.1, refl, ks')
      ]
