-- ===== src/Network/Telescope/Extend.antt =====
-- The last relay of the chain handles EXTEND.
use nopanic.Prelude.{
  ℕ, List, [], ◌∷◌, ◌++◌, ◌≡◌, ◌≤◌, ◌<◌, ◌∙◌, refl, ap, sym, subst, false, none, some, ok, length,
  ltb, le→ltb_false, append-nil,
}
use nopanic.Protocol.{Message, to_u8}
use nopanic.Protocol.Codec.{to_bytes}
use nopanic.Protocol.Messages
use nopanic.Protocol.Wire.{from_stream}
use nopanic.Protocol.Wire.Framing.{Fits, from_stream-to_bytes}
use nopanic.Crypto.Library.{Crypto, SizeLaws, KeystreamLaws}
use nopanic.Crypto.{CipherPair, apply_forward, apply_backward}
use nopanic.Client.Onion.Layers.{apply_forward_undo}
use nopanic.Discovery.{NodeDescriptor, SocketAddr}
use nopanic.Relay.Context.{World, NextHop}
use nopanic.Relay.Extend.{reach_next}
use nopanic.Relay.Extend.Request.{parse_extend-request}
use nopanic.Relay.Extend.Reach.{reach_next_lem}
use nopanic.Relay.Entry
use nopanic.Relay.Middle
use nopanic.Relay.Handler.{own_id, CircuitHandler, entry, middle, exit, handle_message}
use nopanic.Network.{next_hop}
use nopanic.Network.Forward.{cell_in-to_bytes}
use nopanic.Network.Telescope.{Site, Reaches, layer, reader_of, answer_to, peer_of, Forwarder}
use nopanic.Network.Telescope.Create.{server_payload, handle-create, create-Fits, created-Fits}

module _ (lib : Crypto) where
  module _ (world : World) (circuit_id : ℕ) (payload : List ℕ) (c : CipherPair lib)
      (reply : Message) (hop : NextHop) (long : 32 ≤ length reply.payload) where
    extend_lem :
        (h : CircuitHandler lib)
        → Forwarder lib h
        → layer lib h ≡ some c
        → next_hop lib h ≡ none
        → (let (plain, c1) = apply_forward lib c payload in
            let (coated, c2) = apply_backward lib c1 reply.payload in
            let (result, h', w) =
              handle_message lib world h (Messages.extend circuit_id payload) none in
            reach_next world (own_id lib h) plain ≡ ok (reply, hop)
            → (result ≡ ok (some (Messages.extended (own_id lib h) coated)))
              × (layer lib h' ≡ some c2)
              × (next_hop lib h' ≡ some hop)
              × (own_id lib h' ≡ own_id lib h))
    unfolding handle_message Entry.handle_message Middle.handle_message Entry.handle_extend
        Middle.handle_extend Messages.extend Messages.extended Messages.circuit Messages.new
    extend_lem (entry h) _ l n reached = rw (n, l, reached) (refl, refl, refl, refl)
    extend_lem (middle h) _ l n reached =
        let e : ltb (length reply.payload) 32 ≡ false = le→ltb_false _ _ long in
        rw (n, l, reached, e) (refl, refl, refl, refl)
    extend_lem (exit h) f l n reached = elim f [ ]

    pub extend_wrapped :
        KeystreamLaws lib
        → (h : CircuitHandler lib) (plain : List ℕ) → Forwarder lib h
        → layer lib h ≡ some c
        → next_hop lib h ≡ none
        → payload ≡ (apply_forward lib c plain).0
        → (let (coated, c2) = apply_backward lib (apply_forward lib c plain).1 reply.payload in
            let (result, h', w) =
              handle_message lib world h (Messages.extend circuit_id payload) none in
            reach_next world (own_id lib h) plain ≡ ok (reply, hop)
            → (result ≡ ok (some (Messages.extended (own_id lib h) coated)))
              × (layer lib h' ≡ some c2)
              × (next_hop lib h' ≡ some hop)
              × (own_id lib h' ≡ own_id lib h))
    extend_wrapped laws h plain f l n inner =
        let undo = ap (λ t. apply_forward lib c t) inner ∙ apply_forward_undo lib laws c plain in
        subst
          (λ (t : List ℕ × CipherPair lib).
            (let (coated, c2) = apply_backward lib t.1 reply.payload in
              let (result, h', w) =
                handle_message lib world h (Messages.extend circuit_id payload) none in
              reach_next world (own_id lib h) t.0 ≡ ok (reply, hop)
              → (result ≡ ok (some (Messages.extended (own_id lib h) coated)))
                × (layer lib h' ≡ some c2)
                × (next_hop lib h' ≡ some hop)
                × (own_id lib h' ≡ own_id lib h)))
          undo (extend_lem h f l n)

  -- The connection to a site that has answered CREATE.
  abbrev pub hop_to : World → ℕ → List ℕ → NextHop
  hop_to world circuit_id key = record {
    write = record {
      written = to_bytes world.rng (Messages.create circuit_id key);
      broken = false;
    };
    read = some (record { incoming = []; broken = false });
  }

  pub from_stream-reader_of :
      (world : World) (m : Message)
      → Fits m
      → from_stream (reader_of lib world (some m))
        ≡ (ok (some m), record { incoming = []; broken = false })
  from_stream-reader_of world m fits =
      ap (λ bytes. from_stream (record { incoming = bytes; broken = false }))
        (sym (append-nil (to_bytes world.rng m)))
      ∙ from_stream-to_bytes world.rng m [] false fits

  module _ (sizes : SizeLaws lib) (circuit_id : ℕ) (u32 : circuit_id < 4294967296)
      (addr_text : SocketAddr → List ℕ) (key : List ℕ) (len : length key ≡ 32) where
    peer_answers :
        (world : World) (site : Site)
        → from_stream (
            (peer_of lib circuit_id site).answer
              (to_bytes world.rng (Messages.create circuit_id key)))
          ≡ (
            ok (some (Messages.created circuit_id (server_payload lib site key))),
            record { incoming = []; broken = false },
          )
    peer_answers world site =
        ap (λ t. from_stream (reader_of lib site.world (answer_to lib circuit_id site t)))
          (cell_in-to_bytes world.rng _ (create-Fits lib sizes circuit_id key u32 len))
        ∙ ap (λ t. from_stream (reader_of lib site.world t))
            (handle-create lib sizes circuit_id site key u32 len).0
        ∙ from_stream-reader_of site.world _ (created-Fits lib sizes circuit_id site key u32)

    -- A relay that can reach a site reads the client's request, and has the site's answer.
    pub reach_next-site :
        (world : World) (node : NodeDescriptor) (site : Site)
        → Reaches lib circuit_id addr_text world node site
        → reach_next world circuit_id
            (addr_text node.address ++ (0 ∷ (key ++ (0 ∷ node.tls_cert_fingerprint))))
          ≡ ok (
            Messages.created circuit_id (server_payload lib site key),
            hop_to world circuit_id key,
          )
    unfolding Messages.created Messages.circuit Messages.new to_u8
    reach_next-site world node site r =
        reach_next_lem world circuit_id _
          (record {
            addr = addr_text node.address;
            client_public = key;
            fingerprint = node.tls_cert_fingerprint;
          })
          (peer_of lib circuit_id site) _ _
          (parse_extend-request (addr_text node.address) key node.tls_cert_fingerprint
            r.addr_nonzero r.addr_utf8 r.fingerprint_utf8 len)
          r.parses r.dials refl refl (create-Fits lib sizes circuit_id key u32 len)
          (peer_answers world site) refl
