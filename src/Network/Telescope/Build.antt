-- ===== src/Network/Telescope/Build.antt =====
-- The client builds a circuit through honest relays.
use nopanic.Prelude.{
  ℕ, suc, List, [], ◌∷◌, ◌++◌, ◌≡◌, ◌<◌, ◌∙◌, refl, ap, sym, subst, Option, Result, ok, ◌>>=◌,
}
use nopanic.Protocol.{to_u8}
use nopanic.Protocol.Messages
use nopanic.Crypto.Library.{Crypto, SizeLaws, KeystreamLaws, Commutes}
use nopanic.Crypto.{SessionKey, CipherPair, new_pair}
use nopanic.Client.Onion.{wrap}
use nopanic.Client.Onion.Layers.{coat, unwrap-coat}
use nopanic.Client.Builder.{
  BuilderError, Outside, RelayStream, Hops, extend_payload, handshake_extend, extend_all,
}
use nopanic.Client.Builder.Exchange.{standing, exchange_lem}
use nopanic.Discovery.{NodeDescriptor, SocketAddr}
use nopanic.Relay.Context.{World}
use nopanic.Relay.Handler.{CircuitHandler}
use nopanic.Network.Telescope.{
  Site, Chain, Telescoped, Forwarder, EndsWith, honest, Kinds, Route, chain,
}
use nopanic.Network.Telescope.Create.{server_side, server_payload, Created, finish_handshake-server}
use nopanic.Network.Telescope.Extend.{from_stream-reader_of}
use nopanic.Network.Telescope.Grow.{request_for}
use nopanic.Network.Telescope.Step.{Extension, extension}

module _ (lib : Crypto) (laws : KeystreamLaws lib) (sizes : SizeLaws lib) (comm : Commutes lib)
    (world : World) (circuit_id : ℕ) (u32 : circuit_id < 4294967296)
    (connect : SocketAddr → List ℕ → Option (Chain lib)) (secret : ℕ → List ℕ)
    (addr_text : SocketAddr → List ℕ) where
  abbrev pub outside : Outside
  outside = honest lib world circuit_id connect secret addr_text

  module _ (x : List ℕ) (node : NodeDescriptor) (site : Site) (cs : List (CipherPair lib))
      (s : Chain lib) (rest : List Site) where
    x_public : List ℕ
    x_public = lib.public_of x

    -- The client's ciphers behind the request and the answer.
    moved : List (CipherPair lib)
    moved =
        (coat lib (wrap lib cs (request_for addr_text (lib.public_of x) node)).1
          (server_payload lib site (lib.public_of x))).1

    handshake_extend_lem :
        (e : Extension lib laws sizes circuit_id u32 addr_text
          (lib.public_of x)
          (sizes.length-public_of x)
          node
          site
          world
          rest
          cs
          s)
        → node.public_key ≡ lib.public_of site.static
        → handshake_extend lib outside circuit_id x (standing lib outside s) node cs
          ≡ (ok ((server_side lib site (lib.public_of x)).2, moved), standing lib outside e.grew)
    unfolding handshake_extend moved extend_payload Messages.extended Messages.circuit Messages.new
        to_u8
    handshake_extend_lem e k =
        let pub_key = lib.public_of x in
        let payload = server_payload lib site pub_key in
        let (sent, cs1) = wrap lib cs (request_for addr_text pub_key node) in
        let (back, cs2) = coat lib cs1 payload in
        let exchanged =
          exchange_lem lib outside (Messages.extend circuit_id sent)
            (Messages.extended circuit_id back) s e.grew _ e.request_fits e.reacts
            (from_stream-reader_of lib world (Messages.extended circuit_id back) e.answer_fits) in
        let finished = finish_handshake-server lib sizes outside x node site comm k in
        rw (exchanged, unwrap-coat lib laws cs1 payload, finished) refl

  -- The last relay is an exit, or can be extended from.
  abbrev pub Ready : List Site → CircuitHandler lib → Type 0
  Ready [] h = (p : CipherPair lib) × EndsWith lib p h
  Ready (site ∷ rest) h = Forwarder lib h × Kinds lib site.kind rest

  pub created-Ready :
      (sent : List ℕ) (site : Site) (rest : List Site) (h : CircuitHandler lib)
      → Created lib circuit_id site sent h
      → Kinds lib site.kind rest
      → Ready rest h
  created-Ready sent site [] h c k = (_, c.ends k)
  created-Ready sent site (next ∷ rest) h c (f, k) = (c.forwards f, k)

  -- Where the loop of the builder ends: the client and the chain hold the same ciphers, and the last
  -- relay is a fresh exit.
  pub record Through (result : Result BuilderError (Hops lib outside)) : Type 0 where
    pub hops : Hops lib outside
    pub succeeds : result ≡ ok hops
    pub final : Chain lib
    pub stands : hops.stream ≡ standing lib outside final
    pub telescoped : Telescoped lib circuit_id hops.ciphers final
    pub pair : CipherPair lib
    pub ends : EndsWith lib pair final.last

  abbrev pub hops_at : List SessionKey → List (CipherPair lib) → Chain lib → Hops lib outside
  hops_at keys cs s = record { session_keys = keys; ciphers = cs; stream = standing lib outside s }

  pub extend_all-Through :
      (nodes : List NodeDescriptor) (sites : List Site) (i : ℕ) (front : List (CircuitHandler lib))
      (last : CircuitHandler lib) (w : World) (keys : List SessionKey) (cs : List (CipherPair lib))
      → Route lib circuit_id addr_text w nodes sites
      → Ready sites last
      → Telescoped lib circuit_id cs (chain lib front last w sites)
      → Through (
          extend_all lib outside circuit_id i nodes
            (hops_at keys cs (chain lib front last w sites)))
  unfolding extend_all moved
  extend_all-Through [] [] i front last w keys cs route (p, e) t = record {
    hops = hops_at keys cs (chain lib front last w []);
    succeeds = refl;
    final = chain lib front last w [];
    stands = refl;
    telescoped = t;
    pair = p;
    ends = e;
  }
  extend_all-Through [] (site ∷ sites) i front last w keys cs route ready t = elim route [ ]
  extend_all-Through (node ∷ nodes) [] i front last w keys cs route ready t = elim route [ ]
  extend_all-Through (node ∷ nodes) (site ∷ sites) i front last w keys cs (r, rs) (f, k) t =
      let x = secret i in
      let x_public = lib.public_of x in
      let e =
        extension lib laws sizes circuit_id u32 addr_text x_public (sizes.length-public_of x) node
          site world front last w sites cs r f t in
      let s = chain lib front last w (site ∷ sites) in
      let step = handshake_extend_lem x node site cs s sites e r.key in
      let new_key = (server_side lib site x_public).2 in
      let cs' = moved x node site cs s sites in
      let step' = step ∙ ap (λ g. (ok (new_key, cs'), standing lib outside g)) e.is_grown in
      let after : Result BuilderError (SessionKey × List (CipherPair lib)) × RelayStream lib outside
          → Result BuilderError (Hops lib outside) =
        λ t. t.0 >>= λ made. extend_all lib outside circuit_id (suc i) nodes (record {
          session_keys = keys ++ (made.0 ∷ []);
          ciphers = made.1 ++ (new_pair lib made.0 ∷ []);
          stream = t.1;
        }) in
      let next =
        extend_all-Through nodes sites (suc i) e.front e.last site.world (keys ++ (new_key ∷ []))
          (cs' ++ (new_pair lib new_key ∷ [])) rs
          (created-Ready x_public site sites e.last e.created k)
          (subst (Telescoped lib circuit_id (cs' ++ (new_pair lib new_key ∷ []))) e.is_grown
            e.telescoped) in
      subst Through (sym (ap after step')) next
