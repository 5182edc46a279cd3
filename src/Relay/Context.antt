-- ===== src/Relay/Context.antt =====
-- services/relay-node/src/circuit/handler.rs and core/keypair.rs: the state that the handlers of the
-- three kinds of relay share, what they may answer, and the world that they act on.
use nopanic.Prelude.{ℕ, List, Option, none, some, Bool, Result}
use nopanic.Error.{TorError}
use nopanic.Protocol.{MessageCommand}
use nopanic.Protocol.Wire.{Reader, Writer, IoError}
use nopanic.Crypto.Library.{Crypto}
use nopanic.Crypto.{SessionKey, CipherPair, new_pair}
use nopanic.Crypto.Ntor.{ntor_server}

pub data CircuitState : Type 0 where
  initializing active closing closed : CircuitState

-- The `anyhow` errors of the handlers, one for each message.
pub data HandlerError : Type 0 where
  create_too_short extended_too_short created_too_short : HandlerError
  not_established no_crypto_state no_writer : HandlerError
  extend_too_short missing_address_separator key_too_short : HandlerError
  missing_fingerprint_separator invalid_utf8 invalid_address connect_failed : HandlerError
  timed_out closed_waiting : HandlerError
  read_failed : IoError → HandlerError
  write_failed : TorError → HandlerError
  expected_created : MessageCommand → HandlerError
  unexpected_command : MessageCommand → HandlerError
  digest_mismatch : MessageCommand → HandlerError
  circuit_not_found : ℕ → HandlerError

-- A connection to the next hop: its write half, whether it stays silent past the timeout, and what
-- it sends after the bytes that were written.
pub record Peer : Type 0 where
  pub write : Writer
  pub silent : Bool
  pub answer : List ℕ → Reader

-- What the code takes from outside: random bytes, the ephemeral secret of a handshake, the parser
-- of socket addresses, the connection to an address under a TLS fingerprint, and the connection to
-- a destination, which fails with a text.
pub record World : Type 0 where
  pub rng : ℕ → ℕ
  pub ephemeral : List ℕ
  pub parse_addr : List ℕ → Bool
  pub dial : List ℕ → List ℕ → Option Peer
  pub connect : List ℕ → Result (List ℕ) (Unit {0})

-- The commands that entry and middle relays send on where they have a next hop.
pub data Relayed : MessageCommand → Type 0 where
  relayed_data : Relayed MessageCommand.data_cell
  relayed_begin : Relayed MessageCommand.begin
  relayed_end : Relayed MessageCommand.end
  relayed_connected : Relayed MessageCommand.connected
  relayed_extend : Relayed MessageCommand.extend

pub record KeyPair : Type 0 where
  pub public : List ℕ
  pub secret_bytes : List ℕ

pub record NextHop : Type 0 where
  pub write : Writer
  pub read : Option Reader

module _ (lib : Crypto) where
  -- `KeyPair::ntor_server_handshake`
  unfoldable pub ntor_server_handshake : World → KeyPair → List ℕ → List ℕ × List ℕ × SessionKey
  ntor_server_handshake world k client_public =
      ntor_server lib world.ephemeral k.secret_bytes k.public client_public

  pub record CircuitContext : Type 0 where
    pub circuit_id : ℕ
    pub state : CircuitState
    pub session_key : Option SessionKey
    pub cipher_pair : Option (CipherPair lib)

  unfoldable pub new_context : ℕ → CircuitContext
  new_context circuit_id = record {
    circuit_id = circuit_id;
    state = initializing;
    session_key = none;
    cipher_pair = none;
  }

  unfoldable pub activate : CircuitContext → SessionKey → CircuitContext
  activate c key = record c {
    cipher_pair = some (new_pair lib key);
    session_key = some key;
    state = active;
  }

  unfoldable pub close_context : CircuitContext → CircuitContext
  close_context c = record c { state = closed; session_key = none; cipher_pair = none }
