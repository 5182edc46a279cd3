-- ===== src/Tests/Build.antt =====
-- A circuit that is built through three relays, and cells both ways on a built circuit.
use nopanic.Prelude.{
  ℕ, ◌+◌, ◌≡◌, refl, List, [], ◌∷◌, true, Option, none, some, ok, arith, replicate,
}
use nopanic.Crypto.Toy.{toy, toy-KeystreamLaws, toy-SizeLaws, toy-Commutes}
use nopanic.Discovery.{NodeType, NodeDescriptor, SocketAddr, v4}
use nopanic.Client.Builder.{build, extend_payload}
use nopanic.Relay.Extend.{parse_extend}
use nopanic.Relay.Context.{World}
use nopanic.Relay.Utf8.{is_utf8}
use nopanic.Network.Telescope.{Site, Chain, start, honest, Reaches, Route, peer_of}
use nopanic.Network.Telescope.Request.{parse_extend-extend_payload}
use nopanic.Network.Telescope.Built.{Built, build-Built}

abbrev alone : ℕ → World
alone n = record {
  rng = λ i. i;
  ephemeral = n ∷ [];
  parse_addr = λ addr. true;
  dial = λ addr fingerprint. none;
  connect = λ dest. ok tt;
}

abbrev next_to : ℕ → Site → World
next_to n site = record (alone n) { dial = λ addr fingerprint. some (peer_of toy 7 site) }

abbrev third : Site
third = record { kind = NodeType.exit; static = 31 ∷ []; world = alone 13 }

abbrev second : Site
second = record { kind = NodeType.middle; static = 21 ∷ []; world = next_to 12 third }

abbrev first : Site
first = record { kind = NodeType.entry; static = 11 ∷ []; world = next_to 11 second }

abbrev node : ℕ → NodeType → Site → NodeDescriptor
node n kind site = record {
  node_id = n ∷ [];
  node_type = kind;
  address = record { ip = v4 n; port = 9000; flowinfo = 0; scope_id = 0 };
  public_key = toy.public_of site.static;
  bandwidth = 100;
  exit_policy = none;
  operator_id = none;
  tls_cert_fingerprint = b'f' ∷ b'0' ∷ [];
}

abbrev addr_text : SocketAddr → List ℕ
addr_text addr = b'a' ∷ b'.' ∷ b'b' ∷ []

abbrev secret : ℕ → List ℕ
secret i = (i + 40) ∷ []

reaches :
    (n : ℕ) (kind : NodeType) (m : ℕ) (site : Site)
    → Reaches toy 7 addr_text (next_to m site) (node n kind site) site
unfolding is_utf8
reaches n kind m site = record {
  key = refl;
  addr_nonzero = (omega arith, (omega arith, (omega arith, tt)));
  addr_utf8 = refl;
  fingerprint_utf8 = refl;
  parses = refl;
  dials = refl;
  small = omega arith;
}

abbrev connect : SocketAddr → List ℕ → Option (Chain toy)
connect addr fingerprint = some (start toy 7 first (second ∷ third ∷ []))

abbrev path : List NodeDescriptor
path = node 2 NodeType.middle second ∷ node 3 NodeType.exit third ∷ []

route : Route toy 7 addr_text first.world path (second ∷ third ∷ [])
route = (reaches 2 NodeType.middle 11 second, (reaches 3 NodeType.exit 12 third, tt))

build-Built_example :
    Built toy toy-KeystreamLaws toy-SizeLaws toy-Commutes
      (alone 0)
      7
      (omega arith)
      connect
      secret
      addr_text
      (build toy
        (honest toy (alone 0) 7 connect secret addr_text)
        7
        (node 1 NodeType.entry first ∷ path))
build-Built_example =
    build-Built toy toy-KeystreamLaws toy-SizeLaws toy-Commutes (alone 0) 7 (omega arith) connect
      secret addr_text (node 1 NodeType.entry first) path first (second ∷ third ∷ []) (omega arith)
      refl refl route (tt, (tt, refl))

addr_utf8 :
    (is_utf8 (addr_text (node 1 NodeType.entry first).address) ≡ true)
    × (is_utf8 (b'f' ∷ b'0' ∷ []) ≡ true)
unfolding is_utf8
addr_utf8 = (refl, refl)

parse_extend-extend_payload_example :
    parse_extend (
      extend_payload toy
        (honest toy (alone 0) 7 connect secret addr_text)
        (replicate 32 5)
        (node 1 NodeType.entry first))
    ≡ ok (record {
      addr = b'a' ∷ b'.' ∷ b'b' ∷ [];
      client_public = replicate 32 5;
      fingerprint = b'f' ∷ b'0' ∷ [];
    })
parse_extend-extend_payload_example =
    parse_extend-extend_payload toy (honest toy (alone 0) 7 connect secret addr_text)
      (replicate 32 5) (node 1 NodeType.entry first) (omega arith, (omega arith, (omega arith, tt)))
      addr_utf8.0 addr_utf8.1 refl
