-- ===== src/Network/Telescope/Built.antt =====
-- The whole of `CircuitBuilder::build`, through honest relays.
use nopanic.Prelude.{
  ℕ, List, [], ◌∷◌, ◌≡◌, ◌≤◌, ◌<◌, ◌∙◌, refl, ap, sym, subst, false, Option, none, some, Result, ok,
  length, ltb, le→ltb_false, arith, ◌>>=◌,
}
use mathlib.Core.Option.{some-injective}
use nopanic.Protocol.{to_u8}
use nopanic.Protocol.Codec.{to_bytes}
use nopanic.Protocol.Messages
use nopanic.Crypto.Library.{Crypto, SizeLaws, KeystreamLaws, Commutes}
use nopanic.Crypto.{SessionKey, CipherPair, new_pair}
use nopanic.Client.Onion.{new_keys}
use nopanic.Client.Circuit.{Circuit}
use nopanic.Client.Builder.{
  BuilderError, Outside, RelayStream, Hops, handshake_create, extend_all, build, build_from,
  built_circuit,
}
use nopanic.Client.Builder.Exchange.{standing, exchange_lem}
use nopanic.Discovery.{NodeDescriptor, SocketAddr}
use nopanic.Relay.Context.{World}
use nopanic.Relay.Exit.{ExitHandler, ExitCryptoState}
use nopanic.Relay.Handler.{own_id, CircuitHandler, entry, middle, exit}
use nopanic.Network.{carry, cell_in, LinkedPath}
use nopanic.Network.Forward.{cell_in-to_bytes}
use nopanic.Network.Conversation.{InStep}
use nopanic.Network.Telescope.{
  Site, Chain, EndsWith, fresh, handle, chain_react, Kinds, Route, chain, start, answered, layer,
  at_last, grow, grow_by, reader_of,
}
use nopanic.Network.Telescope.Create.{
  server_side, server_payload, Created, handle-create, create-Fits, created-Fits,
  finish_handshake-server,
}
use nopanic.Network.Telescope.Extend.{from_stream-reader_of}
use nopanic.Network.Telescope.Build.{outside, created-Ready, Through, extend_all-Through}

module _ (lib : Crypto) (laws : KeystreamLaws lib) (sizes : SizeLaws lib) (comm : Commutes lib)
    (world : World) (circuit_id : ℕ) (u32 : circuit_id < 4294967296)
    (connect : SocketAddr → List ℕ → Option (Chain lib)) (secret : ℕ → List ℕ)
    (addr_text : SocketAddr → List ℕ) where
  abbrev net : Outside
  net = outside lib laws sizes comm world circuit_id u32 connect secret addr_text

  module _ (x : List ℕ) (node : NodeDescriptor) (site : Site) (sites : List Site) where
    -- The entry relay behind CREATE.
    first : CircuitHandler lib
    first =
        (handle lib site.world (fresh lib circuit_id site)
          (Messages.create circuit_id (lib.public_of x))).1

    first-Created : Created lib circuit_id site (lib.public_of x) first
    unfolding first
    first-Created =
        (handle-create lib sizes circuit_id site (lib.public_of x) u32 (sizes.length-public_of x)).1

    create_reacts :
        chain_react lib world circuit_id
          (start lib circuit_id site sites)
          (to_bytes world.rng (Messages.create circuit_id (lib.public_of x)))
        ≡ (
          some (
              reader_of lib world
                (some (Messages.created circuit_id (server_payload lib site (lib.public_of x))))),
          chain lib [] first site.world sites,
        )
    unfolding first
    create_reacts =
        let key = lib.public_of x in
        let len = sizes.length-public_of x in
        let (replied, created) = handle-create lib sizes circuit_id site key u32 len in
        let s = chain lib [] first site.world sites in
        ap
          (λ m.
            at_last lib world circuit_id (start lib circuit_id site sites) (carry lib world [] m))
          (cell_in-to_bytes world.rng _ (create-Fits lib sizes circuit_id key u32 len))
        ∙ ap (λ reply. (answered lib world reply, grow lib circuit_id s)) replied
        ∙ ap
            (λ o. (
              some (
                  reader_of lib world
                    (some (Messages.created circuit_id (server_payload lib site key)))),
              elim o as (λ y. Chain lib) [
                | none ↦ s
                | some hop ↦ grow_by lib circuit_id s sites (cell_in hop.write)
              ],
            ))
            created.no_hop

    handshake_create_lem :
        node.public_key ≡ lib.public_of site.static
        → handshake_create lib net circuit_id x
            (standing lib net (start lib circuit_id site sites))
            node
          ≡ (
            ok (server_side lib site (lib.public_of x)).2,
            standing lib net (chain lib [] first site.world sites),
          )
    unfolding handshake_create Messages.created Messages.circuit Messages.new to_u8
    handshake_create_lem k =
        let key = lib.public_of x in
        let reply = Messages.created circuit_id (server_payload lib site key) in
        let exchanged =
          exchange_lem lib net (Messages.create circuit_id key) reply
            (start lib circuit_id site sites) _ _
            (create-Fits lib sizes circuit_id key u32 (sizes.length-public_of x)) create_reacts
            (from_stream-reader_of lib world reply
              (created-Fits lib sizes circuit_id site key u32)) in
        let finished = finish_handshake-server lib sizes net x node site comm k in
        rw (exchanged, finished) refl

  exit_of :
      (p : CipherPair lib) (h : CircuitHandler lib)
      → EndsWith lib p h
      → (x : ExitHandler lib) × (h ≡ exit x)
        × (x.shared_state
            ≡ some (record {
              cipher = p;
              forward_digest = lib.new_hasher;
              backward_digest = lib.new_hasher;
            }))
  exit_of p (exit x) e = (x, refl, e)
  exit_of p (entry h) e = elim e [ ]
  exit_of p (middle h) e = elim e [ ]

  -- A build that has gone well: the circuit, and the relays that it goes through, in step with it.
  pub record Built (result : Result BuilderError (Circuit lib × RelayStream lib net)) : Type 0 where
    pub circuit : Circuit lib
    pub stream : RelayStream lib net
    pub succeeds : result ≡ ok (circuit, stream)
    pub final : Chain lib
    pub stands : stream ≡ standing lib net final
    pub exit_relay : ExitHandler lib
    pub is_exit : final.last ≡ exit exit_relay
    pub in_step : InStep lib (record { client = circuit; relays = final.front; exit = exit_relay })

  Through-Built :
      (result : Result BuilderError (Hops lib net))
      → Through lib laws sizes comm world circuit_id u32 connect secret addr_text result
      → Built (result >>= λ hops. ok (built_circuit lib net circuit_id hops))
  unfolding built_circuit new_keys
  Through-Built result t =
      let (x, is_exit, shared) = exit_of t.pair t.final.last t.ends in
      let crypto : ExitCryptoState lib = record {
        cipher = t.pair;
        forward_digest = lib.new_hasher;
        backward_digest = lib.new_hasher;
      } in
      let same_layer : t.telescoped.pair ≡ t.pair = some-injective _ _ (
        sym t.telescoped.has_layer
        ∙ ap (layer lib) is_exit
        ∙ ap
            (λ (o : Option (ExitCryptoState lib)). elim o as (λ y. Option (CipherPair lib)) [
              | none ↦ none
              | some s ↦ some s.cipher
            ])
            shared) in
      let (circuit, stream) = built_circuit lib net circuit_id t.hops in
      record {
        circuit = circuit;
        stream = stream;
        succeeds = rw t.succeeds refl;
        final = t.final;
        stands = t.stands;
        exit_relay = x;
        is_exit = is_exit;
        in_step = record {
          synced = record {
            crypto = crypto;
            has_crypto = shared;
            digest = refl;
            path = subst (LinkedPath lib t.hops.ciphers t.final.front) same_layer t.telescoped.path;
            idle_writer = ap (λ r. r.write) t.stands;
            circuit_id_u32 = u32;
          };
          back_digest =
              λ other q. ap (λ s. s.backward_digest) (some-injective _ _ (sym q ∙ shared));
          exit_id_u32 =
              subst (λ id. id < 4294967296)
                (sym (ap (own_id lib) (sym is_exit) ∙ t.telescoped.same_id)) u32;
        };
      }

  -- A path of at least three nodes, where the transport connects to the first and each relay can
  -- reach the next one, and only the last is an exit: `build` succeeds, for any secrets. The
  -- client and all relays then hold the same keys: the circuit is in step with them both ways.
  pub build-Built :
      (node : NodeDescriptor) (nodes : List NodeDescriptor) (site : Site) (sites : List Site)
      → 2 ≤ length nodes
      → connect node.address node.tls_cert_fingerprint ≡ some (start lib circuit_id site sites)
      → node.public_key ≡ lib.public_of site.static
      → Route lib circuit_id addr_text site.world nodes sites
      → Kinds lib site.kind sites
      → Built (build lib net circuit_id (node ∷ nodes))
  unfolding build build_from
  build-Built node nodes site sites long connected k route kinds =
      let x = secret 0 in
      let key = (server_side lib site (lib.public_of x)).2 in
      let created = first-Created x node site sites in
      let short : ltb (length (node ∷ nodes)) 3 ≡ false = le→ltb_false 3 _ (omega arith) in
      let through =
        extend_all-Through lib laws sizes comm world circuit_id u32 connect secret addr_text nodes
          sites 1 [] (first x node site sites) site.world (key ∷ []) (new_pair lib key ∷ []) route
          (created-Ready lib laws sizes comm world circuit_id u32 connect secret addr_text
            (lib.public_of x) site sites (first x node site sites) created kinds)
          (record {
            pair = new_pair lib key;
            has_layer = created.has_layer;
            path = refl;
            no_hop = created.no_hop;
            same_id = created.same_id;
          }) in
      let after : Result BuilderError SessionKey × RelayStream lib net
          → Result BuilderError (Circuit lib × RelayStream lib net) =
        λ t. t.0 >>= λ made.
        extend_all lib net circuit_id 1 nodes
          (record { session_keys = made ∷ []; ciphers = new_pair lib made ∷ []; stream = t.1 })
        >>= λ hops. ok (built_circuit lib net circuit_id hops) in
      rw (short, connected)
        (subst Built (sym (ap after (handshake_create_lem x node site sites k)))
          (Through-Built _ through))
