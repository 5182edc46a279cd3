-- ===== src/Network/Telescope.antt =====
-- A client that builds a circuit through honest relays: services/tor-client/src/core/circuit.rs,
-- `CircuitBuilder`, against the handlers of services/relay-node/src/circuit and the choice of a
-- handler in services/relay-node/src/main.rs.
pub mod Request
pub mod Create
pub mod Extend
pub mod Grow
pub mod Step
pub mod Build
pub mod Built
use nopanic.Prelude.{
  ℕ, List, [], ◌∷◌, ◌++◌, ◌≡◌, ◌≢◌, ◌≤◌, ◌+◌, Bool, true, false, Option, none, some, Result, ok,
  err, length, All,
}
use nopanic.Protocol.{Message, max_payload_size}
use nopanic.Protocol.Codec.{to_bytes}
use nopanic.Protocol.Wire.{Reader}
use nopanic.Crypto.Library.{Crypto}
use nopanic.Crypto.{CipherPair}
use nopanic.Discovery.{NodeType, NodeDescriptor, SocketAddr}
use nopanic.Relay.Context.{World, KeyPair, Peer}
use nopanic.Relay.Connection.{handler_for}
use nopanic.Relay.Utf8.{is_utf8}
use nopanic.Relay.Handler.{CircuitHandler, own_id, entry, middle, exit, handle_message}
use nopanic.Client.Builder.{Outside}
use nopanic.Network.{idle, cell_in, carry, drain, next_hop, Linked, LinkedPath}
use nopanic.Network.Backward.{written_back, carry_back}

-- A relay that no cell has reached: its kind, its long-term secret and its surroundings.
pub record Site : Type 0 where
  pub kind : NodeType
  pub static : List ℕ
  pub world : World

module _ (lib : Crypto) where
  -- The end of the exit's layer, or of a relay's.
  abbrev pub layer : CircuitHandler lib → Option (CipherPair lib)
  layer (entry h) = h.context.cipher_pair
  layer (middle h) = h.context.cipher_pair
  layer (exit h) = elim h.shared_state [ none ↦ none | some s ↦ some s.cipher ]

  -- Entry and middle relays extend a circuit.
  abbrev pub Forwarder : CircuitHandler lib → Type 0
  Forwarder (entry h) = Unit {0}
  Forwarder (middle h) = Unit {0}
  Forwarder (exit h) = ⊥

  abbrev pub Forwards : NodeType → Type 0
  Forwards NodeType.exit = ⊥
  Forwards _ = Unit {0}

  -- An exit with the pair, and with digests that nothing has been hashed into.
  abbrev pub EndsWith : CipherPair lib → CircuitHandler lib → Type 0
  EndsWith pair (exit h) =
      h.shared_state
      ≡ some (record {
        cipher = pair;
        forward_digest = lib.new_hasher;
        backward_digest = lib.new_hasher;
      })
  EndsWith pair _ = ⊥

  abbrev pub fresh : ℕ → Site → CircuitHandler lib
  fresh circuit_id site =
      handler_for lib site.kind circuit_id
        (record { public = lib.public_of site.static; secret_bytes = site.static })

  -- A relay handles a cell; its answer is written to the previous hop and read there.
  abbrev pub handle : World → CircuitHandler lib → Message → Option Message × CircuitHandler lib
  handle world h m =
      let (result, h', w) = handle_message lib world h m none in (written_back world result, h')

  abbrev pub reader_of : World → Option Message → Reader
  reader_of world none = record { incoming = []; broken = false }
  reader_of world (some m) = record { incoming = to_bytes world.rng m; broken = false }

  abbrev pub answer_to : ℕ → Site → Option Message → Option Message
  answer_to circuit_id site none = none
  answer_to circuit_id site (some m) = (handle site.world (fresh circuit_id site) m).0

  -- A connection to a relay that no cell has reached.
  abbrev pub peer_of : ℕ → Site → Peer
  peer_of circuit_id site = record {
    write = idle;
    silent = false;
    answer = λ bytes.
        reader_of site.world
          (answer_to circuit_id site (cell_in (record { written = bytes; broken = false })));
  }

  -- The relays in front have a next hop; the last one is still to be extended from, to those of the
  -- sites that follow.
  pub record Chain : Type 0 where
    pub front : List (CircuitHandler lib)
    pub last : CircuitHandler lib
    pub last_world : World
    pub ahead : List Site

  -- A relay that has connected to the next one stands in front; the next one has handled the cell
  -- that was written to it.
  abbrev pub grow_by : ℕ → Chain → List Site → Option Message → Chain
  grow_by circuit_id s [] m = s
  grow_by circuit_id s (site ∷ rest) none = s
  grow_by circuit_id s (site ∷ rest) (some m) = record {
    front = s.front ++ (drain lib s.last ∷ []);
    last = (handle site.world (fresh circuit_id site) m).1;
    last_world = site.world;
    ahead = rest;
  }

  abbrev pub grow : ℕ → Chain → Chain
  grow circuit_id s = elim (next_hop lib s.last) as (λ x. Chain) [
    | none ↦ s
    | some hop ↦ grow_by circuit_id s s.ahead (cell_in hop.write)
  ]

  abbrev pub answered : World → Option Message → Option Reader
  answered world none = none
  answered world (some m) = some (reader_of world (some m))

  module _ (world : World) (circuit_id : ℕ) where
    -- The last relay has a cell: its answer goes back through those in front.
    abbrev pub at_last : Chain → Option Message × List (CircuitHandler lib) → Option Reader × Chain
    at_last s (none, front) = (none, record s { front = front })
    at_last s (some m, front) =
        let (reply, last) = handle s.last_world s.last m in
        let (back, front') = carry_back lib world front reply in
        (answered world back, grow circuit_id (record s { front = front'; last = last }))

    -- What the client gets for a cell.
    abbrev pub chain_react : Chain → List ℕ → Option Reader × Chain
    chain_react s bytes =
        at_last s (carry lib world s.front (cell_in (record { written = bytes; broken = false })))

    -- The client's surroundings, with the chain behind its transport.
    abbrev pub honest :
        (SocketAddr → List ℕ → Option Chain) → (ℕ → List ℕ) → (SocketAddr → List ℕ) → Outside
    honest connect secret addr_text = record {
      Remote = Chain;
      connect = connect;
      react = chain_react;
      rng = world.rng;
      secret = secret;
      addr_text = addr_text;
    }

  -- The descriptor of a node fits its site, and a relay with the surroundings can reach it.
  pub record Reaches (circuit_id : ℕ) (addr_text : SocketAddr → List ℕ) (world : World)
      (node : NodeDescriptor) (site : Site) : Type 0 where
    pub key : node.public_key ≡ lib.public_of site.static
    pub addr_nonzero : All (λ b. b ≢ 0) (addr_text node.address)
    pub addr_utf8 : is_utf8 (addr_text node.address) ≡ true
    pub fingerprint_utf8 : is_utf8 node.tls_cert_fingerprint ≡ true
    pub parses : world.parse_addr (addr_text node.address) ≡ true
    pub dials :
        world.dial (addr_text node.address) node.tls_cert_fingerprint
        ≡ some (peer_of circuit_id site)
    pub small :
        length (addr_text node.address) + length node.tls_cert_fingerprint + 34 ≤ max_payload_size

  -- The state between two hops: the client's ciphers are those of the chain.
  pub record Telescoped (circuit_id : ℕ) (ciphers : List (CipherPair lib)) (s : Chain)
      : Type 0 where
    pub pair : CipherPair lib
    pub has_layer : layer s.last ≡ some pair
    pub path : LinkedPath lib ciphers s.front pair
    pub no_hop : next_hop lib s.last ≡ none
    pub same_id : own_id lib s.last ≡ circuit_id

  -- The relays behind one of a kind: only the last is an exit.
  abbrev pub Kinds : NodeType → List Site → Type 0
  Kinds kind [] = kind ≡ NodeType.exit
  Kinds kind (site ∷ rest) = Forwards kind × Kinds site.kind rest

  -- Each relay can reach the next one, at the node that the client knows it by.
  abbrev pub Route : ℕ → (SocketAddr → List ℕ) → World → List NodeDescriptor → List Site → Type 0
  Route circuit_id addr_text w [] [] = Unit {0}
  Route circuit_id addr_text w (node ∷ nodes) (site ∷ sites) =
      Reaches circuit_id addr_text w node site × Route circuit_id addr_text site.world nodes sites
  Route circuit_id addr_text w _ _ = ⊥

  abbrev pub chain : List (CircuitHandler lib) → CircuitHandler lib → World → List Site → Chain
  chain front last w sites = record { front = front; last = last; last_world = w; ahead = sites }

  -- The entry relay of some sites, that no cell has reached, in front of the others.
  abbrev pub start : ℕ → Site → List Site → Chain
  start circuit_id site sites = chain [] (fresh circuit_id site) site.world sites
