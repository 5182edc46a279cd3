-- ===== src/Client/Builder.antt =====
-- services/tor-client/src/core/circuit.rs: `CircuitBuilder`, which builds a circuit hop by hop, with
-- `TorNtorHandshaker`. The network behind the entry relay is a parameter: a state, and what arrives
-- from it when it has read some bytes, nothing where it stays silent past the timeout. So are the
-- ephemeral secrets, the text of an address and the transport. The text `path_display` is left out.
pub mod Exchange
use nopanic.Prelude.{
  ℕ, suc, List, [], ◌∷◌, ◌++◌, false, not, Option, none, some, Result, ok, err, map_err, ensure,
  ◌>>=◌, ◌>>◌, length, take, drop, ltb, if◌then◌else◌,
}
use nopanic.Error.{TorError}
use nopanic.Protocol.{Message, MessageCommand, command_eq}
use nopanic.Protocol.Messages
use nopanic.Protocol.Wire.{Reader, Writer, IoError, from_stream, write_to_stream}
use nopanic.Crypto.Library.{Crypto}
use nopanic.Crypto.{SessionKey, CipherPair, new_pair}
use nopanic.Crypto.Ntor.{ntor_client_finish}
use nopanic.Discovery.{NodeDescriptor, SocketAddr}
use nopanic.Client.Onion.{wrap, unwrap, new_keys}
use nopanic.Client.Circuit.{Circuit, ready}

-- The `anyhow` errors of the builder.
pub data BuilderError : Type 0 where
  path_too_short : ℕ → BuilderError
  connect_failed timed_out connection_closed : BuilderError
  send_failed : TorError → BuilderError
  read_failed : IoError → BuilderError
  unexpected_answer : MessageCommand → BuilderError
  answer_too_short : ℕ → BuilderError
  handshake_failed : TorError → BuilderError

-- What the builder takes from outside.
pub record Outside : Type 1 where
  pub Remote : Type 0
  pub connect : SocketAddr → List ℕ → Option Remote
  pub react : Remote → List ℕ → Option Reader × Remote
  pub rng : ℕ → ℕ
  pub secret : ℕ → List ℕ
  pub addr_text : SocketAddr → List ℕ

module _ (lib : Crypto) (outside : Outside) where
  open outside use {Remote, connect, react, rng, secret, addr_text}

  -- The connection to the entry relay: what is not yet read on either side.
  pub record RelayStream : Type 0 where
    pub write : Writer
    pub unread : List ℕ
    pub remote : Remote

  arrived : RelayStream → Option Reader → Result BuilderError Message × RelayStream
  arrived s none = (err timed_out, s)
  arrived s (some r) =
      let (read, rest) =
        from_stream (record { incoming = s.unread ++ r.incoming; broken = r.broken }) in
      (
        elim read [
          | err e ↦ err (read_failed e)
          | ok none ↦ err connection_closed
          | ok (some m) ↦ ok m
        ],
        record s { unread = rest.incoming },
      )

  -- A message is written, and the answer is awaited.
  unfoldable pub exchange : Message → RelayStream → Result BuilderError Message × RelayStream
  unfolding arrived
  exchange m s =
      let (sent, write) = write_to_stream rng m s.write in
      let (answer, remote) = react s.remote write.written in
      elim sent [
        | err e ↦ (err (send_failed e), record s { write = write })
        | ok _ ↦
            arrived (record s { write = record write { written = [] }; remote = remote }) answer
      ]

  -- The end of both handshakes, on the plain payload of the answer.
  unfoldable pub finish_handshake :
      List ℕ → NodeDescriptor → List ℕ → Result BuilderError SessionKey
  finish_handshake x_secret node payload = do
    ensure (not (ltb (length payload) 64)) (answer_too_short (length payload))
    map_err handshake_failed (
        ntor_client_finish lib x_secret (lib.public_of x_secret) node.public_key (take 32 payload)
          (take 32 (drop 32 payload)))

  unfoldable pub handshake_create :
      ℕ → List ℕ → RelayStream → NodeDescriptor → Result BuilderError SessionKey × RelayStream
  unfolding finish_handshake
  handshake_create circuit_id x_secret s entry =
      let (answer, s') = exchange (Messages.create circuit_id (lib.public_of x_secret)) s in
      (
        (do
          m ← answer
          ensure (command_eq m.command MessageCommand.created) (unexpected_answer m.command)
          finish_handshake x_secret entry m.payload),
        s',
      )

  -- "address, 0, 32 bytes of key, 0, fingerprint"
  unfoldable pub extend_payload : List ℕ → NodeDescriptor → List ℕ
  extend_payload our_public node =
      addr_text node.address ++ (0 ∷ (our_public ++ (0 ∷ node.tls_cert_fingerprint)))

  -- The key, with the ciphers that the request and the answer have moved on.
  unfoldable pub handshake_extend :
      ℕ
      → List ℕ
      → RelayStream
      → NodeDescriptor
      → List (CipherPair lib)
      → Result BuilderError (SessionKey × List (CipherPair lib)) × RelayStream
  unfolding finish_handshake extend_payload
  handshake_extend circuit_id x_secret s node ciphers =
      let (wrapped, ciphers') = wrap lib ciphers (extend_payload (lib.public_of x_secret) node) in
      let (answer, s') = exchange (Messages.extend circuit_id wrapped) s in
      (
        (do
          m ← answer
          ensure (command_eq m.command MessageCommand.extended) (unexpected_answer m.command)
          let opened = unwrap lib ciphers' m.payload
          key ← finish_handshake x_secret node opened.0
          ok (key, opened.1)),
        s',
      )

  -- What is built so far, and the connection.
  pub record Hops : Type 0 where
    pub session_keys : List SessionKey
    pub ciphers : List (CipherPair lib)
    pub stream : RelayStream

  -- The loop over the hops behind the entry; `i` is the index of the next one.
  unfoldable pub extend_all : ℕ → ℕ → List NodeDescriptor → Hops → Result BuilderError Hops
  unfolding handshake_extend
  extend_all circuit_id i [] hops = ok hops
  extend_all circuit_id i (node ∷ rest) hops =
      let (result, s') = handshake_extend circuit_id (secret i) hops.stream node hops.ciphers in
      result >>= λ r. extend_all circuit_id (suc i) rest (record {
        session_keys = hops.session_keys ++ (r.0 ∷ []);
        ciphers = r.1 ++ (new_pair lib r.0 ∷ []);
        stream = s';
      })

  unfoldable pub built_circuit : ℕ → Hops → Circuit lib × RelayStream
  built_circuit circuit_id hops = (
    record {
      circuit_id = circuit_id;
      state = ready;
      entry_writer = hops.stream.write;
      onion_keys = new_keys lib hops.session_keys hops.ciphers;
      stream_senders = [];
      next_stream_id = 1;
    },
    hops.stream,
  )

  unfoldable pub build_from :
      ℕ
      → NodeDescriptor
      → List NodeDescriptor
      → Option Remote
      → Result BuilderError (Circuit lib × RelayStream)
  unfolding handshake_create extend_all built_circuit
  build_from circuit_id entry rest none = err connect_failed
  build_from circuit_id entry rest (some remote) =
      let s0 : RelayStream = record {
        write = record { written = []; broken = false };
        unread = [];
        remote = remote;
      } in
      let (created, s') = handshake_create circuit_id (secret 0) s0 entry in
      do
        key ← created
        hops ←
            extend_all circuit_id 1 rest
              (record { session_keys = key ∷ []; ciphers = new_pair lib key ∷ []; stream = s' })
        ok (built_circuit circuit_id hops)

  -- `CircuitBuilder::build`
  unfoldable pub build : ℕ → List NodeDescriptor → Result BuilderError (Circuit lib × RelayStream)
  unfolding build_from
  build circuit_id [] = err (path_too_short 0)
  build circuit_id (entry ∷ rest) =
      if ltb (length (entry ∷ rest)) 3
      then err (path_too_short (length (entry ∷ rest)))
      else build_from circuit_id entry rest (connect entry.address entry.tls_cert_fingerprint)
