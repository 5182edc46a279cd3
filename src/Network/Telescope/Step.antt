-- ===== src/Network/Telescope/Step.antt =====
-- One EXTEND through the chain of relays, from the client's request to the answer that it gets.
use nopanic.Prelude.{
  ℕ, List, [], ◌∷◌, ◌++◌, ◌≡◌, ◌≤◌, ◌<◌, ◌∙◌, refl, ap, none, some, length, arith,
}
use nopanic.Protocol.{max_payload_size}
use nopanic.Protocol.Codec.{to_bytes}
use nopanic.Protocol.Messages
use nopanic.Protocol.Wire.Framing.{Fits}
use nopanic.Crypto.Library.{Crypto, SizeLaws, KeystreamLaws}
use nopanic.Crypto.{CipherPair, apply_forward, apply_backward, new_pair}
use nopanic.Client.Onion.{wrap}
use nopanic.Client.Onion.Layers.{coat, length-wrap, length-coat}
use nopanic.Discovery.{NodeDescriptor, SocketAddr}
use nopanic.Relay.Context.{World, relayed_extend}
use nopanic.Relay.Handler.{CircuitHandler}
use nopanic.Network.{cell_in, carry, next_hop, drain, Linked, LinkedPath}
use nopanic.Network.Forward.{cell_in-to_bytes, carry-wrap}
use nopanic.Network.Backward.{carry_back, carry_back-coat}
use nopanic.Network.Telescope.{
  Site, Chain, Forwarder, Reaches, Telescoped, fresh, handle, reader_of, grow, grow_by, at_last,
  answered, chain_react,
}
use nopanic.Network.Telescope.Create.{
  server_side, server_payload, Created, handle-create, create-Fits, length-server_payload,
}
use nopanic.Network.Telescope.Extend.{hop_to}
use nopanic.Network.Telescope.Grow.{
  LinkedPath_snoc, extend-Fits, extended-Fits, handle-extend, request_for, request-small,
}

module _ (lib : Crypto) (laws : KeystreamLaws lib) (sizes : SizeLaws lib) (circuit_id : ℕ)
    (u32 : circuit_id < 4294967296) (addr_text : SocketAddr → List ℕ) (key : List ℕ)
    (len : length key ≡ 32) (node : NodeDescriptor) (site : Site) where
  -- The request as the client wraps it, and what comes back under the layers of the chain.
  wrapped : List (CipherPair lib) → List ℕ × List (CipherPair lib)
  wrapped cs = wrap lib cs (request_for addr_text key node)

  sent_back : List (CipherPair lib) → List ℕ × List (CipherPair lib)
  sent_back cs = coat lib (wrapped cs).1 (server_payload lib site key)

  module _ (world : World) (front : List (CircuitHandler lib)) (last : CircuitHandler lib)
      (last_world : World) (rest : List Site) (cs : List (CipherPair lib)) where
    old : Chain lib
    old = record { front = front; last = last; last_world = last_world; ahead = site ∷ rest }

    module _ (r : Reaches lib circuit_id addr_text last_world node site) (f : Forwarder lib last)
        (t : Telescoped lib circuit_id cs old) where
      wrapped-Fits : Fits (Messages.extend circuit_id (wrapped cs).0)
      unfolding wrapped
      wrapped-Fits = extend-Fits lib circuit_id (wrapped cs).0 u32 (
          omega (
            arith,
            length-wrap lib laws cs (request_for addr_text key node),
            request-small lib laws sizes circuit_id u32 addr_text key len node site last_world r,
          ))

      carried :
          (let m = Messages.extend circuit_id (wrapped cs).0 in
            let (inner, c1) = apply_forward lib t.pair (request_for addr_text key node) in
            let (arrived, hs) = carry lib world front (some m) in
            (arrived ≡ some (Messages.extend circuit_id inner))
            × LinkedPath lib (wrapped cs).1 hs c1)
      unfolding Messages.extend Messages.circuit Messages.new wrapped old
      carried =
          carry-wrap lib world laws cs front t.pair (Messages.extend circuit_id (wrapped cs).0)
            (request_for addr_text key node) relayed_extend wrapped-Fits.wire
            (request-small lib laws sizes circuit_id u32 addr_text key len node site last_world r)
            t.path

      front1 : List (CircuitHandler lib)
      front1 = (carry lib world front (some (Messages.extend circuit_id (wrapped cs).0))).1

      answer : List ℕ × CipherPair lib
      answer =
          apply_backward lib (apply_forward lib t.pair (request_for addr_text key node)).1
            (server_payload lib site key)

      brought :
          (let (back, hs) =
              carry_back lib world front1 (some (Messages.extended circuit_id answer.0)) in
            (back ≡ some (Messages.extended circuit_id (sent_back cs).0))
            × LinkedPath lib (sent_back cs).1 hs answer.1)
      unfolding front1 answer sent_back Messages.extended Messages.circuit Messages.new
      brought =
          let small : length (server_payload lib site key) ≤ max_payload_size =
            omega (arith, length-server_payload lib sizes site key) in
          carry_back-coat lib world laws (wrapped cs).1 front1
            (apply_forward lib t.pair (request_for addr_text key node)).1
            (Messages.extended circuit_id (server_payload lib site key))
            (server_payload lib site key)
            (extended-Fits lib circuit_id (server_payload lib site key) u32 small).wire small
            carried.1

      -- The last relay, when it has handled the request.
      last1 : CircuitHandler lib
      last1 =
          (handle lib last_world last (
            Messages.extend circuit_id
              (apply_forward lib t.pair (request_for addr_text key node)).0)).1

      extended :
          (let m =
              Messages.extend circuit_id
                (apply_forward lib t.pair (request_for addr_text key node)).0 in
            ((handle lib last_world last m).0 ≡ some (Messages.extended circuit_id answer.0))
            × Linked lib answer.1 (drain lib last1)
            × (next_hop lib last1 ≡ some (hop_to lib last_world circuit_id key)))
      unfolding last1 answer old
      extended =
          handle-extend lib laws sizes circuit_id u32 addr_text key len node site last_world t.pair
            last r f t.has_layer t.no_hop t.same_id

      front2 : List (CircuitHandler lib)
      front2 = (carry_back lib world front1 (some (Messages.extended circuit_id answer.0))).1

      grown : Chain lib
      grown = record {
        front = front2 ++ (drain lib last1 ∷ []);
        last =
            (handle lib site.world (fresh lib circuit_id site) (Messages.create circuit_id key)).1;
        last_world = site.world;
        ahead = rest;
      }

      grow-grown : grow lib circuit_id (record old { front = front2; last = last1 }) ≡ grown
      unfolding grown old
      grow-grown =
          let s = record old { front = front2; last = last1 } in
          ap
            (λ o. elim o as (λ x. Chain lib) [
              | none ↦ s
              | some hop ↦ grow_by lib circuit_id s (site ∷ rest) (cell_in hop.write)
            ])
            extended.2
          ∙ ap (grow_by lib circuit_id s (site ∷ rest))
              (cell_in-to_bytes last_world.rng _ (create-Fits lib sizes circuit_id key u32 len))

      -- The chain's answer to the client's request, and the chain behind it.
      chain_react-grown :
          chain_react lib world circuit_id old
            (to_bytes world.rng (Messages.extend circuit_id (wrapped cs).0))
          ≡ (
            some (reader_of lib world (some (Messages.extended circuit_id (sent_back cs).0))),
            grown,
          )
      unfolding front1 front2 last1 wrapped old
      chain_react-grown =
          ap (λ m. at_last lib world circuit_id old (carry lib world front m))
            (cell_in-to_bytes world.rng _ wrapped-Fits)
          ∙ ap (λ m. at_last lib world circuit_id old (m, front1)) carried.0
          ∙ ap
              (λ reply.
                let (back, hs) = carry_back lib world front1 reply in
                (
                  answered lib world back,
                  grow lib circuit_id (record old { front = hs; last = last1 }),
                ))
              extended.0
          ∙ ap
              (λ back. (
                answered lib world back,
                grow lib circuit_id (record old { front = front2; last = last1 }),
              ))
              brought.0
          ∙ ap
              (λ s. (
                some (reader_of lib world (some (Messages.extended circuit_id (sent_back cs).0))),
                s,
              ))
              grow-grown

      grown-Telescoped :
          Telescoped lib circuit_id
            ((sent_back cs).1 ++ (new_pair lib (server_side lib site key).2 ∷ []))
            grown
      unfolding grown front2
      grown-Telescoped =
          let created = (handle-create lib sizes circuit_id site key u32 len).1 in
          let pair = new_pair lib (server_side lib site key).2 in
          record {
            pair = pair;
            has_layer = created.has_layer;
            path =
                LinkedPath_snoc lib (sent_back cs).1 front2 answer.1 pair (drain lib last1)
                  brought.1 extended.1;
            no_hop = created.no_hop;
            same_id = created.same_id;
          }

  -- The chain's part in one EXTEND: what it reads and what is read of it fit into cells, and it
  -- stands behind it with the site's relay as the last one.
  pub record Extension (world : World) (rest : List Site) (cs : List (CipherPair lib))
      (s : Chain lib) : Type 0 where
    pub front : List (CircuitHandler lib)
    pub last : CircuitHandler lib
    pub grew : Chain lib
    pub is_grown :
        grew ≡ record { front = front; last = last; last_world = site.world; ahead = rest }
    pub request_fits :
        Fits (Messages.extend circuit_id (wrap lib cs (request_for addr_text key node)).0)
    pub answer_fits :
        (let cs' = (wrap lib cs (request_for addr_text key node)).1 in
          Fits (Messages.extended circuit_id (coat lib cs' (server_payload lib site key)).0))
    pub reacts :
        (let (sent, cs1) = wrap lib cs (request_for addr_text key node) in
          let (back, cs2) = coat lib cs1 (server_payload lib site key) in
          chain_react lib world circuit_id s (to_bytes world.rng (Messages.extend circuit_id sent))
          ≡ (some (reader_of lib world (some (Messages.extended circuit_id back))), grew))
    pub telescoped :
        (let (sent, cs1) = wrap lib cs (request_for addr_text key node) in
          let (back, cs2) = coat lib cs1 (server_payload lib site key) in
          Telescoped lib circuit_id (cs2 ++ (new_pair lib (server_side lib site key).2 ∷ [])) grew)
    pub created : Created lib circuit_id site key last

  pub extension :
      (world : World) (front : List (CircuitHandler lib)) (last : CircuitHandler lib)
      (last_world : World) (rest : List Site) (cs : List (CipherPair lib))
      → Reaches lib circuit_id addr_text last_world node site
      → Forwarder lib last
      → (let s : Chain lib = record {
        front = front;
        last = last;
        last_world = last_world;
        ahead = site ∷ rest;
      } in
          Telescoped lib circuit_id cs s → Extension world rest cs s)
  unfolding old grown wrapped sent_back
  extension world front last last_world rest cs r f t = record {
    front =
        front2 world front last last_world rest cs r f t
        ++ (drain lib (last1 world front last last_world rest cs r f t) ∷ []);
    last = (handle lib site.world (fresh lib circuit_id site) (Messages.create circuit_id key)).1;
    grew = grown world front last last_world rest cs r f t;
    is_grown = refl;
    request_fits = wrapped-Fits world front last last_world rest cs r f t;
    answer_fits = extended-Fits lib circuit_id (sent_back cs).0 u32 (
        omega (
          arith,
          length-coat lib laws (wrapped cs).1 (server_payload lib site key),
          length-server_payload lib sizes site key,
        ));
    reacts = chain_react-grown world front last last_world rest cs r f t;
    telescoped = grown-Telescoped world front last last_world rest cs r f t;
    created = (handle-create lib sizes circuit_id site key u32 len).1;
  }
