-- ===== src/Network/Telescope/Create.antt =====
-- The handshake with one honest relay: what it answers to CREATE, and what the client makes of it.
use nopanic.Prelude.{
  ℕ, List, ◌++◌, ◌≡◌, ◌≢◌, ◌∙◌, refl, ap, sym, false, none, some, ok, length, length-append, take,
  drop, take-append_left, drop-append_left, take_of_length-le, ltb, le→ltb_false, arith, ◌<◌,
  Option-cases, inl, inr, map_err,
}
use nopanic.Protocol.Messages
use nopanic.Protocol.Wire.Framing.{Fits}
use nopanic.Crypto.Library.{Crypto, SizeLaws, Commutes}
use nopanic.Crypto.{SessionKey, new_pair}
use nopanic.Crypto.Ntor.{ntor_server, hmac_sha256}
use nopanic.Crypto.Ntor.Agreement.{ntor_client_finish-ntor_server}
use nopanic.Discovery.{NodeType, NodeDescriptor}
use nopanic.Relay.Context.{World, new_context, activate, ntor_server_handshake}
use nopanic.Relay.Entry
use nopanic.Relay.Middle
use nopanic.Relay.Exit
use nopanic.Relay.Handler.{own_id, CircuitHandler, handle_message}
use nopanic.Relay.Connection.{handler_for}
use nopanic.Client.Builder.{Outside, finish_handshake}
use nopanic.Network.{next_hop}
use nopanic.Network.Backward.{written_back, written_back-Fits}
use nopanic.Network.Telescope.{Site, fresh, handle, layer, Forwards, Forwarder, EndsWith}

module _ (lib : Crypto) where
  -- The public key, the tag and the session key of a relay at a site, for a client's public key.
  abbrev pub server_side : Site → List ℕ → List ℕ × List ℕ × SessionKey
  server_side site client_public =
      ntor_server lib site.world.ephemeral site.static (lib.public_of site.static) client_public

  abbrev pub server_payload : Site → List ℕ → List ℕ
  server_payload site client_public =
      (server_side site client_public).0 ++ (server_side site client_public).1

  -- A relay that no cell had reached, behind the handshake.
  pub record Created (circuit_id : ℕ) (site : Site) (client_public : List ℕ)
      (h : CircuitHandler lib) : Type 0 where
    pub has_layer : layer lib h ≡ some (new_pair lib (server_side site client_public).2)
    pub no_hop : next_hop lib h ≡ none
    pub same_id : own_id lib h ≡ circuit_id
    pub forwards : Forwards lib site.kind → Forwarder lib h
    pub ends :
        site.kind ≡ NodeType.exit → EndsWith lib (new_pair lib (server_side site client_public).2) h

  entry-ne-exit : NodeType.entry ≢ NodeType.exit
  entry-ne-exit = cc

  middle-ne-exit : NodeType.middle ≢ NodeType.exit
  middle-ne-exit = cc

  short_key : (key : List ℕ) → length key ≡ 32 → ltb (length key) 32 ≡ false
  short_key key len = le→ltb_false 32 (length key) (omega arith)

  take_key : (key : List ℕ) → length key ≡ 32 → take 32 key ≡ key
  take_key key len = take_of_length-le 32 key (omega arith)

  handle_create_lem :
      (kind : NodeType) (static : List ℕ) (world : World) (circuit_id : ℕ) (key : List ℕ)
      → length key ≡ 32
      → (let site : Site = record { kind = kind; static = static; world = world } in
          let (result, h, w) =
            handle_message lib world
              (fresh lib circuit_id site)
              (Messages.create circuit_id key)
              none in
          (result ≡ ok (some (Messages.created circuit_id (server_payload site key))))
          × Created circuit_id site key h)
  unfolding handle_message handler_for Entry.handle_message Middle.handle_message
      Exit.handle_message Messages.create Messages.created Messages.circuit Messages.new new_context
      activate ntor_server_handshake Entry.handle_create Middle.handle_create Exit.handle_create
  handle_create_lem NodeType.entry static world circuit_id key len =
      rw (short_key key len, take_key key len)
        (
          refl,
          record {
            has_layer = refl;
            no_hop = refl;
            same_id = refl;
            forwards = λ _. tt;
            ends = λ k. absurd (entry-ne-exit k);
          },
        )
  handle_create_lem NodeType.middle static world circuit_id key len =
      rw (short_key key len, take_key key len)
        (
          refl,
          record {
            has_layer = refl;
            no_hop = refl;
            same_id = refl;
            forwards = λ _. tt;
            ends = λ k. absurd (middle-ne-exit k);
          },
        )
  handle_create_lem NodeType.exit static world circuit_id key len =
      rw (short_key key len, take_key key len)
        (
          refl,
          record {
            has_layer = refl;
            no_hop = refl;
            same_id = refl;
            forwards = λ f. f;
            ends = λ _. refl;
          },
        )

  module _ (sizes : SizeLaws lib) where
    length-hmac_sha256 : (key bytes : List ℕ) → length (hmac_sha256 lib key bytes) ≡ 32
    unfolding hmac_sha256
    length-hmac_sha256 key bytes = elim (Option-cases (lib.new_mac key)) [
      | inl e ↦ rw (e, hmac_sha256) refl
      | inr (mac, e) ↦ rw (e, hmac_sha256) (sizes.length-finalize_mac (lib.update_mac mac bytes))
    ]

    length-server_side :
        (site : Site) (key : List ℕ)
        → (length (server_side site key).0 ≡ 32) × (length (server_side site key).1 ≡ 32)
    unfolding ntor_server
    length-server_side site key = (sizes.length-public_of _, length-hmac_sha256 _ _)

    pub length-server_payload : (site : Site) (key : List ℕ) → length (server_payload site key) ≡ 64
    length-server_payload site key =
        let (a, b) = length-server_side site key in
        omega (arith, length-append (server_side site key).0 (server_side site key).1)

    pub created-Fits :
        (circuit_id : ℕ) (site : Site) (key : List ℕ)
        → circuit_id < 4294967296
        → Fits (Messages.created circuit_id (server_payload site key))
    unfolding Messages.created Messages.circuit Messages.new
    created-Fits circuit_id site key u32 = record {
      wire = record { circuit_id_u32 = u32; stream_id_u16 = omega arith; digest_array = refl };
      small = omega (arith, length-server_payload site key);
    }

    pub create-Fits :
        (circuit_id : ℕ) (key : List ℕ)
        → circuit_id < 4294967296
        → length key ≡ 32
        → Fits (Messages.create circuit_id key)
    unfolding Messages.create Messages.circuit Messages.new
    create-Fits circuit_id key u32 len = record {
      wire = record { circuit_id_u32 = u32; stream_id_u16 = omega arith; digest_array = refl };
      small = omega arith;
    }

    -- An honest relay's answer to CREATE, and the relay behind it.
    pub handle-create :
        (circuit_id : ℕ) (site : Site) (key : List ℕ)
        → circuit_id < 4294967296
        → length key ≡ 32
        → (let (reply, h) =
              handle lib site.world (fresh lib circuit_id site) (Messages.create circuit_id key) in
            (reply ≡ some (Messages.created circuit_id (server_payload site key)))
            × Created circuit_id site key h)
    handle-create circuit_id site key u32 len =
        let (result, created) =
          handle_create_lem site.kind site.static site.world circuit_id key len in
        (
          ap (written_back site.world) result
              ∙ written_back-Fits lib site.world _ (created-Fits circuit_id site key u32),
          created,
        )

    -- The client takes it, and has the relay's session key.
    pub finish_handshake-server :
        (outside : Outside) (x : List ℕ) (node : NodeDescriptor) (site : Site)
        → Commutes lib
        → node.public_key ≡ lib.public_of site.static
        → finish_handshake lib outside x node (server_payload site (lib.public_of x))
          ≡ ok (server_side site (lib.public_of x)).2
    unfolding finish_handshake
    finish_handshake-server outside x node site comm k =
        let (y, auth, key) = server_side site (lib.public_of x) in
        let (len, len') = length-server_side site (lib.public_of x) in
        let whole : ltb (length (y ++ auth)) 64 ≡ false =
          le→ltb_false _ _ (omega (arith, length-append y auth)) in
        let first : take 32 (y ++ auth) ≡ y =
          ap (λ n. take n (y ++ auth)) (sym len) ∙ take-append_left y auth in
        let second : take 32 (drop 32 (y ++ auth)) ≡ auth =
          ap (λ n. take 32 (drop n (y ++ auth))) (sym len)
          ∙ ap (take 32) (drop-append_left y auth)
          ∙ take_of_length-le 32 auth (omega arith) in
        rw (whole, first, second, k)
          (ap (map_err _)
            (ntor_client_finish-ntor_server lib x site.world.ephemeral site.static comm))
