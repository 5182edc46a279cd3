-- ===== src/Tests/Discovery.antt =====
-- A registry with an entry, a middle and an exit.
use nopanic.Prelude.{
  leb, not, if◌then◌else◌, ◌+◌, ◌-◌, All, true, ◌↔◌, ℕ, ◌≡◌, ◌≢◌, ◌≤◌, refl, List, [], ◌∷◌, false,
  none, some, ok, arith, Pairwise, length, retain, contains, bytes_eq,
}
use nopanic.Discovery.{SocketAddr, NodeDescriptor, NodeType, v4, is_loopback}
use nopanic.Discovery.Policy.{default_policy, allows}
use nopanic.Discovery.Policy.Permits.{Permitted, allows-Permitted}
use nopanic.Discovery.Registry.{
  address_eq, cleanup_stale_nodes, NodeRegistry, register_node, new_registry, lookup, new_entry,
  get_nodes_by_type, get_all_nodes,
}
use nopanic.Discovery.Registry.Valid.{Valid}
use nopanic.Discovery.Registry.Steps.{
  Call, registers, beats, removes, cleans, run_all, run_all-Valid,
}
use nopanic.Discovery.Registry.Lookup.{
  kept_by, registered, register_node-lookup, cleanup_stale_nodes-lookup,
}
use nopanic.Discovery.Registry.Stats.{get_stats}
use nopanic.Discovery.Registry.Stats.Counted.{Describes, get_stats-Describes}
use nopanic.Discovery.Path.{
  get_random_path, select_weighted_index, select_weighted_node, total_bandwidth, exclude,
  pick_middles,
}
use nopanic.Discovery.Path.Weights.{FallsOn, select_weighted_index-FallsOn}
use nopanic.Discovery.Path.Diverse.{Apart}
use nopanic.Discovery.Path.Random.{PathOf, get_random_path-PathOf}
use nopanic.Discovery.Path.Slots.{InRange}
use nopanic.Discovery.Path.Enough.{get_random_path_some}

abbrev node : ℕ → NodeType → NodeDescriptor
node n t = record {
  node_id = n ∷ [];
  node_type = t;
  address = record { ip = v4 n; port = 9001; flowinfo = 0; scope_id = 0 };
  public_key = n ∷ [];
  bandwidth = n;
  exit_policy = none;
  operator_id = none;
  tls_cert_fingerprint = [];
}

abbrev guard : NodeDescriptor
guard = node 1 NodeType.entry

abbrev relay : NodeDescriptor
relay = node 2 NodeType.middle

abbrev last : NodeDescriptor
last = node 3 NodeType.exit

abbrev listed : NodeRegistry
listed = record {
  nodes =
      (1 ∷ [], new_entry guard 0 0)
      ∷ (2 ∷ [], new_entry relay 0 0)
      ∷ (3 ∷ [], new_entry last 0 0)
      ∷ [];
  allow_same_ip = false;
}

abbrev draw : ℕ → ℕ → ℕ
draw k n = 0

draw-InRange : InRange draw
draw-InRange k n pos = pos

found_path : get_random_path draw listed 3 ≡ ok (guard ∷ relay ∷ last ∷ [])
unfolding get_random_path get_nodes_by_type retain select_weighted_node select_weighted_index
    total_bandwidth is_loopback contains exclude pick_middles
found_path = refl

get_random_path-PathOf_example : PathOf listed 3 (guard ∷ relay ∷ last ∷ []) × (3 ≤ 3)
get_random_path-PathOf_example =
    get_random_path-PathOf draw listed 3 (guard ∷ relay ∷ last ∷ []) found_path

Apart-node : (m n : ℕ) (s t : NodeType) → m ≢ n → Apart false (node m s) (node n t)
Apart-node m n s t ne =
    ((λ _ _ e. ne (ground (arith, e))), λ op named. absurd (ground (arith, named)))

listed-Apart : Pairwise (Apart false) (get_all_nodes listed)
unfolding get_all_nodes
listed-Apart = (
  (
    Apart-node 1 2 NodeType.entry NodeType.middle (omega arith),
    (Apart-node 1 3 NodeType.entry NodeType.exit (omega arith), tt),
  ),
  ((Apart-node 2 3 NodeType.middle NodeType.exit (omega arith), tt), (tt, tt)),
)

counts :
    (length (get_nodes_by_type NodeType.entry listed) ≡ 1)
    × (length (get_nodes_by_type NodeType.middle listed) ≡ 1)
    × (length (get_nodes_by_type NodeType.exit listed) ≡ 1)
unfolding get_nodes_by_type retain
counts = (refl, refl, refl)

get_random_path_some_example :
    (path : List NodeDescriptor) × (get_random_path draw listed 3 ≡ ok path)
get_random_path_some_example =
    get_random_path_some draw listed 3 draw-InRange (omega arith) (omega (arith, counts.0))
      (omega (arith, counts.2)) (omega (arith, counts.1)) listed-Apart

abbrev weigh : ℕ → ℕ → ℕ
weigh k n = 4

select_weighted_index-FallsOn_example :
    (j : ℕ) × (select_weighted_index weigh 0 (guard ∷ relay ∷ last ∷ []) ≡ ok j)
    × FallsOn 4 (guard ∷ relay ∷ last ∷ []) j
select_weighted_index-FallsOn_example =
    select_weighted_index-FallsOn weigh 0 (guard ∷ relay ∷ last ∷ []) (omega arith) (omega arith)

-- The exit moves to the address of the entry, whose entry goes.
abbrev calls : List Call
calls =
    registers 0 guard
    ∷ registers 1 relay
    ∷ registers 2 last
    ∷ beats 3 (2 ∷ [])
    ∷ registers 4 (record last { address = guard.address })
    ∷ removes (1 ∷ [])
    ∷ cleans 100 50
    ∷ []

run_all-Valid_example : Valid (run_all calls (new_registry false))
run_all-Valid_example = run_all-Valid calls false

entry_listed : lookup (1 ∷ []) listed.nodes ≡ some (new_entry guard 0 0)
unfolding lookup bytes_eq
entry_listed = refl

-- The first registration of all.
first_registered :
    lookup (2 ∷ []) (register_node 7 relay (new_registry false)).nodes ≡ some (new_entry relay 7 7)
unfolding register_node new_registry lookup retain bytes_eq
first_registered = refl

new_registry-Valid : Valid (new_registry false)
new_registry-Valid = run_all-Valid [] false

register_node-lookup_example :
    lookup (2 ∷ []) (register_node 7 relay (new_registry false)).nodes ≡ (
      if bytes_eq (2 ∷ []) (2 ∷ [])
      then some (registered 7 relay (lookup (2 ∷ []) (new_registry false).nodes))
      else kept_by
          (λ e. not (address_eq e.descriptor.address relay.address))
          (lookup (2 ∷ []) (new_registry false).nodes))
register_node-lookup_example =
    register_node-lookup 7 relay (new_registry false) (2 ∷ []) new_registry-Valid

abbrev web : SocketAddr
web = record { ip = v4 3; port = 443; flowinfo = 0; scope_id = 0 }

allows-Permitted_example : (allows default_policy web ≡ true) ↔ Permitted default_policy web
allows-Permitted_example = allows-Permitted default_policy web

abbrev all_listed : NodeRegistry
all_listed = run_all (registers 0 guard ∷ registers 0 relay ∷ []) (new_registry false)

-- At instant 40 every node of instant 0 is 40 old, and all of them go.
cleanup_stale_nodes-lookup_example :
    (lookup (1 ∷ []) (cleanup_stale_nodes 40 30 all_listed).1.nodes
      ≡ kept_by (λ e. leb (40 - e.last_heartbeat) 30) (lookup (1 ∷ []) all_listed.nodes))
    × All (λ (k, f). 40 - f.last_heartbeat ≤ 30) (cleanup_stale_nodes 40 30 all_listed).1.nodes
    × ((cleanup_stale_nodes 40 30 all_listed).0
          + length (cleanup_stale_nodes 40 30 all_listed).1.nodes
        ≡ length all_listed.nodes)
cleanup_stale_nodes-lookup_example =
    cleanup_stale_nodes-lookup 40 30 all_listed (1 ∷ [])
      (run_all-Valid (registers 0 guard ∷ registers 0 relay ∷ []) false)

get_stats-Describes_example : Describes 5000000000 listed (get_stats 5000000000 listed)
get_stats-Describes_example = get_stats-Describes 5000000000 listed
