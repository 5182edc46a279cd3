-- ===== src/Network/Telescope/Grow.antt =====
-- The chain of relays grows by one.
use nopanic.Prelude.{
  ℕ, List, [], ◌∷◌, ◌++◌, ◌≡◌, ◌≤◌, ◌<◌, ◌∙◌, refl, ap, sym, none, some, ok, length, length-append,
  arith,
}
use mathlib.Core.Option.{some-ne-none}
use nopanic.Protocol.{max_payload_size}
use nopanic.Protocol.Messages
use nopanic.Protocol.Wire.Framing.{Fits}
use nopanic.Crypto.Library.{Crypto, SizeLaws, KeystreamLaws}
use nopanic.Crypto.{CipherPair, apply_forward, apply_backward}
use nopanic.Discovery.{NodeDescriptor, SocketAddr}
use nopanic.Relay.Context.{World, NextHop}
use nopanic.Relay.Extend.{reach_next}
use nopanic.Relay.Handler.{own_id, CircuitHandler, entry, middle, exit}
use nopanic.Network.{idle, next_hop, drain, drained, Linked, LinkedPath}
use nopanic.Network.Backward.{written_back, written_back-Fits}
use nopanic.Network.Telescope.{Site, Forwarder, Reaches, handle, layer}
use nopanic.Network.Telescope.Create.{server_payload, length-server_payload}
use nopanic.Network.Telescope.Extend.{hop_to, extend_wrapped, reach_next-site}

-- The client's request for the next hop.
abbrev pub request_for : (SocketAddr → List ℕ) → List ℕ → NodeDescriptor → List ℕ
request_for addr_text key node =
    addr_text node.address ++ (0 ∷ (key ++ (0 ∷ node.tls_cert_fingerprint)))

module _ (lib : Crypto) where
  pub LinkedPath_snoc :
      (cs : List (CipherPair lib)) (hs : List (CircuitHandler lib)) (c p : CipherPair lib)
      (h : CircuitHandler lib)
      → LinkedPath lib cs hs c
      → Linked lib c h
      → LinkedPath lib (cs ++ (p ∷ [])) (hs ++ (h ∷ [])) p
  LinkedPath_snoc cs [] c p h l here = rw l (here, refl)
  LinkedPath_snoc [] (g ∷ hs) c p h l here = elim l [ ]
  LinkedPath_snoc (b ∷ cs) (g ∷ hs) c p h (l, ls) here = (l, LinkedPath_snoc cs hs c p h ls here)

  drain-Linked :
      (c : CipherPair lib) (hop : NextHop) (h : CircuitHandler lib)
      → layer lib h ≡ some c
      → next_hop lib h ≡ some hop
      → Linked lib c (drain lib h)
  drain-Linked c hop (entry h) l n = record {
    pair = l;
    hop = record hop { write = idle };
    has_hop = ap (drained lib) n;
    idle_hop = refl;
  }
  drain-Linked c hop (middle h) l n = record {
    pair = l;
    hop = record hop { write = idle };
    has_hop = ap (drained lib) n;
    idle_hop = refl;
  }
  drain-Linked c hop (exit h) l n = absurd (some-ne-none _ (sym n))

  pub extend-Fits :
      (circuit_id : ℕ) (payload : List ℕ)
      → circuit_id < 4294967296
      → length payload ≤ max_payload_size
      → Fits (Messages.extend circuit_id payload)
  unfolding Messages.extend Messages.circuit Messages.new
  extend-Fits circuit_id payload u32 small = record {
    wire = record { circuit_id_u32 = u32; stream_id_u16 = omega arith; digest_array = refl };
    small = small;
  }

  pub extended-Fits :
      (circuit_id : ℕ) (payload : List ℕ)
      → circuit_id < 4294967296
      → length payload ≤ max_payload_size
      → Fits (Messages.extended circuit_id payload)
  unfolding Messages.extended Messages.circuit Messages.new
  extended-Fits circuit_id payload u32 small = record {
    wire = record { circuit_id_u32 = u32; stream_id_u16 = omega arith; digest_array = refl };
    small = small;
  }

  module _ (laws : KeystreamLaws lib) (sizes : SizeLaws lib) (circuit_id : ℕ)
      (u32 : circuit_id < 4294967296) (addr_text : SocketAddr → List ℕ) (key : List ℕ)
      (len : length key ≡ 32) (node : NodeDescriptor) (site : Site) where
    -- What the last relay answers, and what becomes of it.
    pub handle-extend :
        (world : World) (c : CipherPair lib) (h : CircuitHandler lib)
        → Reaches lib circuit_id addr_text world node site
        → Forwarder lib h
        → layer lib h ≡ some c
        → next_hop lib h ≡ none
        → own_id lib h ≡ circuit_id
        → (let (inner, c1) = apply_forward lib c (request_for addr_text key node) in
            let (coated, c2) = apply_backward lib c1 (server_payload lib site key) in
            let (reply, h') = handle lib world h (Messages.extend circuit_id inner) in
            (reply ≡ some (Messages.extended circuit_id coated))
            × Linked lib c2 (drain lib h')
            × (next_hop lib h' ≡ some (hop_to lib world circuit_id key)))
    unfolding apply_backward Messages.created Messages.circuit Messages.new
    handle-extend world c h r f l n i =
        let (inner, c1) = apply_forward lib c (request_for addr_text key node) in
        let payload = server_payload lib site key in
        let reply = Messages.created circuit_id payload in
        let (coated, c2) = apply_backward lib c1 payload in
        let long : 64 ≡ length payload = sym (length-server_payload lib sizes site key) in
        let small : length coated ≤ max_payload_size =
          omega (arith, laws.keeps_length c1.backward payload) in
        let reached =
          ap (λ id. reach_next world id (request_for addr_text key node)) i
          ∙ reach_next-site lib sizes circuit_id u32 addr_text key len world node site r in
        let (result, l', n', _) =
          extend_wrapped lib world circuit_id inner c reply (hop_to lib world circuit_id key)
            (omega arith) laws h (request_for addr_text key node) f l n refl reached in
        (
          ap (written_back world) (result ∙ ap (λ id. ok (some (Messages.extended id coated))) i)
              ∙ written_back-Fits lib world _ (extended-Fits circuit_id coated u32 small),
          drain-Linked c2 _ _ l' n',
          n',
        )

    pub request-small :
        (world : World)
        → Reaches lib circuit_id addr_text world node site
        → length (request_for addr_text key node) ≤ max_payload_size
    request-small world r =
        let fp = node.tls_cert_fingerprint in
        let small = r.small in
        omega (
          arith,
          length-append (addr_text node.address) (0 ∷ (key ++ (0 ∷ fp))),
          length-append key (0 ∷ fp),
        )
