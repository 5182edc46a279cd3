-- ===== src/Lib.antt =====
-- nopanic is an onion-routing network. A client takes nodes from a discovery service, builds a
-- circuit through relays (entry, middle ones, exit) with one ntor handshake per hop, and sends
-- fixed cells of 514 bytes. The payload of a cell to the exit has one AES-CTR layer per hop; each
-- relay peels one and sends the cell on, and the exit checks a running SHA-256 digest and talks to
-- the destination. On the way back each relay adds a layer and the client takes all of them off.
--
-- The modules, and the code they are about (paths from the root of the repository):
--
--   Prelude    shared names, lists, byte strings, results and dictionaries over the native ℕ;
--              Prelude.Outcome has Rust's Result with `?` as a do block, Prelude.Dict the HashMap.
--   Error      services/common/src/error.rs, TorError.
--   Protocol   services/common/src/protocol.rs: Message, MessageCommand and ParseError; .Messages the
--              constructors, .Codec to_bytes and from_bytes, .Wire read_from, from_stream, write_to
--              and write_to_stream.
--              Below Codec: .Layout (where each field stands), .Roundtrip and .Accept; below Wire:
--              .Framing.
--   Crypto     services/common/src/crypto.rs: SessionKey, CipherPair, update_digest and
--              verify_digest; .Ntor ntor_server and ntor_client_finish; .Library the parameters.
--   Client     services/tor-client/src/core: .Onion is crypto_engine.rs, .Circuit the Circuit and
--              its reader task in circuit.rs, .Builder its CircuitBuilder, .Pool its CircuitPool
--              (.Pool.Monitor its start and the tasks beside it);
--              .Stream is handle_stream in stream.rs.
--   Relay      services/relay-node/src/circuit: .Context and .Handler are handler.rs (CircuitContext;
--              CircuitHandler and CircuitRegistry), .Entry entry.rs, .Middle middle.rs, .Exit exit.rs
--              and .Exit.Tasks its stream tasks; .Extend is what entry and middle do alike with
--              EXTEND, .Reader their reader tasks, .Utf8 the check of from_utf8. .Connection is
--              handle_connection in services/relay-node/src/main.rs.
--   Network    the client and its relays together: what send_message writes, each relay's
--              handle_message reads, until the exit handles it; .Backward and .Answers the way back,
--              .Conversation cells both ways, .Telescope a circuit built hop by hop.
--   Discovery  services/common/src/types.rs (descriptors, .Policy the ExitPolicy) and the core of
--              services/discovery/src/core/registry.rs: .Registry is NodeRegistry and what changes it,
--              .Path select_weighted_index and get_random_path. .Service is
--              services/discovery/src/api/grpc.rs.
--   Proto      services/proto/src/lib.rs: descriptors to and from their protobuf messages.
--   Tests      concrete runs.
--
-- Bytes and integers are natural numbers. A field of w bytes is written with `% 256 ^ w`, and
-- IsWire says that a message's fields are in range; wrap-around of counters is written out
-- (allocate_stream_id). An async operation is a function from the state to its result and the
-- state that it leaves, errors included; a connection is a Reader (what is still to come, and how
-- it ends) or a Writer (what was written, and whether it is broken). Locks are held for a whole
-- handler in the source, so a handler is one step; what other tasks do to the state that
-- handle_connection and run_reader share with them is an argument, for each of their rounds
-- (Surroundings and Moment), and so are the rounds of the circuit's reader that handle_stream
-- finds between its locks. Loops are recursion on lists, or on fuel where they read until the
-- connection ends: run_reader, handle_connection and circuit_reader, for which any fuel above the
-- number of bytes still to come is enough. What select! and timeout choose is a list of events.
--
-- Parameters: AES-CTR, SHA-256, HMAC and X25519 are the fields of Crypto.Library.Crypto, with the
-- laws that the theorems need as named hypotheses: applying the key stream twice gives the data
-- back and keeps its length, a Diffie-Hellman exchange commutes, and a public key has 32 bytes.
-- Crypto.Toy has concrete functions that satisfy them. Random bytes, address parsing, dialling the
-- next hop and connecting to a destination are the fields of Relay.Context.World; the transport
-- that dials the entry and the network behind it are those of Client.Builder.Outside.
--
-- The draws of the random generator that choose a path are a function argument of get_random_path.
-- What a path request and CircuitBuilder::build give the pool is its argument builds. A round of
-- the pool's monitor is one step: no other task takes the pool within it.
--
-- Not modelled: the parsing of node types and hex keys, a relay's start-up and accept loop, TLS,
-- the SOCKS server, REST, metrics, and the user interfaces. aes_encrypt, aes_decrypt and
-- EphemeralKeyPair have no part in a circuit.
pub mod Prelude
pub mod Error
pub mod Protocol
pub mod Crypto
pub mod Client
pub mod Proto
pub mod Relay
pub mod Network
pub mod Discovery
mod Tests
