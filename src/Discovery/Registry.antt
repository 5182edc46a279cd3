-- ===== src/Discovery/Registry.antt =====
-- services/discovery/src/core/registry.rs: `NodeRegistry` and what changes or reads it.
-- `Instant::now()` is an argument, in nanoseconds; log lines are left out.
pub mod Valid
pub mod Steps
pub mod Lookup
pub mod Stats
use nopanic.Prelude.{
  ℕ, suc, ◌+◌, ◌-◌, ◌/◌, List, [], ◌∷◌, map, Option, none, some, Bool, false, not, ◌||◌, Result, ok,
  err, length, ltb, ◌&&◌, bytes_eq, retain, ◌==◌, if◌then◌else◌,
}
use nopanic.Discovery.{NodeDescriptor, NodeType, SocketAddr, ip_eq, node_type_eq}
use nopanic.Discovery.Policy.{is_empty}

-- `NodeMetrics`
pub record NodeMetrics : Type 0 where
  pub connections_accepted : ℕ
  pub circuits_active : ℕ
  pub circuits_created : ℕ
  pub circuits_destroyed : ℕ
  pub bytes_forwarded : ℕ
  pub bytes_received : ℕ
  pub streams_opened : ℕ
  pub uptime_secs : ℕ
  pub event_snapshot : List (List ℕ)

pub record NodeEntry : Type 0 where
  pub descriptor : NodeDescriptor
  pub registered_at : ℕ
  pub last_heartbeat : ℕ
  pub metrics : Option NodeMetrics

-- The errors that carry a text of their own, one for each text; `empty_list` is also what a choice
-- past the end of a list gives.
pub data RegistryError : Type 0 where
  node_not_found : List ℕ → RegistryError
  too_few_hops no_entry_nodes no_middle_nodes too_few_middles no_exit_nodes : RegistryError
  shared_ip shared_operator too_few_apart empty_list : RegistryError

-- `nodes` is the `HashMap`, its keys beside its values.
pub record NodeRegistry : Type 0 where
  pub nodes : List (List ℕ × NodeEntry)
  pub allow_same_ip : Bool

unfoldable pub new_registry : Bool → NodeRegistry
new_registry allow_same_ip = record { nodes = []; allow_same_ip = allow_same_ip }

-- `==` of addresses
abbrev pub address_eq : SocketAddr → SocketAddr → Bool
address_eq a b =
    ip_eq a.ip b.ip
    && (a.port == b.port)
    && (a.flowinfo == b.flowinfo)
    && (a.scope_id == b.scope_id)

unfoldable pub lookup : List ℕ → List (List ℕ × NodeEntry) → Option NodeEntry
lookup id [] = none
lookup id ((key, e) ∷ rest) = if bytes_eq key id then some e else lookup id rest

-- `get_mut`, and a change of what it finds
unfoldable pub modify :
    List ℕ → (NodeEntry → NodeEntry) → List (List ℕ × NodeEntry) → List (List ℕ × NodeEntry)
modify id f [] = []
modify id f ((key, e) ∷ rest) =
    if bytes_eq key id then (key, f e) ∷ rest else (key, e) ∷ modify id f rest

-- The entries that `register_node` keeps: that of the id, and those at other addresses.
abbrev pub keeps : NodeDescriptor → List ℕ × NodeEntry → Bool
keeps d (key, e) = bytes_eq key d.node_id || not (address_eq e.descriptor.address d.address)

abbrev pub renewed : NodeDescriptor → ℕ → NodeEntry → NodeEntry
renewed d now e = record e { descriptor = d; last_heartbeat = now }

-- `NodeEntry::new`
abbrev pub new_entry : NodeDescriptor → ℕ → ℕ → NodeEntry
new_entry d registered last = record {
  descriptor = d;
  registered_at = registered;
  last_heartbeat = last;
  metrics = none;
}

unfoldable pub register_node : ℕ → NodeDescriptor → NodeRegistry → NodeRegistry
register_node now d r =
    let kept = retain (keeps d) r.nodes in
    elim (lookup d.node_id kept) [
      | none ↦ record r { nodes = (d.node_id, new_entry d now now) ∷ kept }
      | some _ ↦ record r { nodes = modify d.node_id (renewed d now) kept }
    ]

-- `ok_or_else(..)?` on what a lookup gives: the error for an unknown id, or the changed registry.
abbrev pub found_or_not :
    Option NodeEntry
    → List ℕ
    → NodeRegistry
    → NodeRegistry
    → Result RegistryError (Unit {0}) × NodeRegistry
found_or_not none id r changed = (err (node_not_found id), r)
found_or_not (some _) id r changed = (ok tt, changed)

-- A heartbeat of a node that is there.
beat :
    List ℕ → (NodeEntry → NodeEntry) → NodeRegistry → Result RegistryError (Unit {0}) × NodeRegistry
beat id f r = found_or_not (lookup id r.nodes) id r (record r { nodes = modify id f r.nodes })

unfoldable pub update_heartbeat :
    ℕ → List ℕ → NodeRegistry → Result RegistryError (Unit {0}) × NodeRegistry
unfolding beat
update_heartbeat now id r = beat id (λ e. record e { last_heartbeat = now }) r

unfoldable pub update_heartbeat_with_metrics :
    ℕ → List ℕ → NodeMetrics → NodeRegistry → Result RegistryError (Unit {0}) × NodeRegistry
unfolding beat
update_heartbeat_with_metrics now id metrics r =
    beat id (λ e. record e { last_heartbeat = now; metrics = some metrics }) r

unfoldable pub remove_node : List ℕ → NodeRegistry → Result RegistryError (Unit {0}) × NodeRegistry
remove_node id r =
    found_or_not (lookup id r.nodes) id r
      (record r { nodes = retain (λ (key, e). not (bytes_eq key id)) r.nodes })

-- `duration_since` is 0 for a later instant.
unfoldable pub cleanup_stale_nodes : ℕ → ℕ → NodeRegistry → ℕ × NodeRegistry
cleanup_stale_nodes now timeout r =
    let fresh = retain (λ (key, e). not (ltb timeout (now - e.last_heartbeat))) r.nodes in
    (length r.nodes - length fresh, record r { nodes = fresh })

unfoldable pub get_all_nodes : NodeRegistry → List NodeDescriptor
get_all_nodes r = map (λ (key, e). e.descriptor) r.nodes

unfoldable pub get_nodes_by_type : NodeType → NodeRegistry → List NodeDescriptor
get_nodes_by_type t r =
    map (λ (key, e). e.descriptor)
      (retain (λ (key, e). node_type_eq e.descriptor.node_type t) r.nodes)

unfoldable pub is_ready : NodeRegistry → Bool
is_ready r =
    not (is_empty (get_nodes_by_type NodeType.entry r))
    && not (is_empty (get_nodes_by_type NodeType.middle r))
    && not (is_empty (get_nodes_by_type NodeType.exit r))
