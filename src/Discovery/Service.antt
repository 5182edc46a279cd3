-- ===== src/Discovery/Service.antt =====
-- services/discovery/src/api/grpc.rs: the calls of the discovery service, over the registry.
-- Metrics of the service itself are left out.
pub mod Admission
pub mod Served
use nopanic.Prelude.{
  ℕ, List, [], ◌∷◌, map, Option, none, some, Bool, true, false, Result, ok, err, map_err, ensure,
  ◌>>=◌, ◌>>◌, length, ltb, ◌==◌, if◌then◌else◌,
}
use nopanic.Proto.{ProtoDescriptor, descriptor_from_proto, descriptor_to_proto}
use nopanic.Proto
use nopanic.Discovery.{SocketAddr, NodeDescriptor}
use nopanic.Discovery.Policy.{is_empty}
use nopanic.Discovery.Registry.{
  NodeMetrics, NodeRegistry, RegistryError, node_not_found, register_node, remove_node,
  update_heartbeat_with_metrics, get_all_nodes, is_ready,
}
use nopanic.Discovery.Registry.Stats.{RegistryStats, get_stats}
use nopanic.Discovery.Path.{get_random_path}

-- `tonic::Status`, by its code and what it is about.
pub data Status : Type 0 where
  invalid_argument : Proto.Status → Status
  empty_node_id zero_bandwidth metrics_required not_ready : Status
  not_found unavailable internal : RegistryError → Status

-- Which code an error of the registry has.
unfoldable pub of_lookup : RegistryError → Status
of_lookup (node_not_found id) = not_found (node_not_found id)
of_lookup e = internal e

unfoldable pub of_path : RegistryError → Status
of_path (node_not_found id) = internal (node_not_found id)
of_path e = unavailable e

-- `HealthCheckResponse`: whether the service is ready, and whether a message says that it is not.
unfoldable pub health_check : NodeRegistry → Bool × Bool
health_check r = (is_ready r, if is_ready r then false else true)

-- The copy of the numbers into the message is left out.
unfoldable pub serve_stats : ℕ → NodeRegistry → RegistryStats
serve_stats now r = get_stats now r

unfoldable pub readiness_check : NodeRegistry → Result Status (Unit {0})
readiness_check r = ensure (is_ready r) not_ready

unfoldable pub admit : ℕ → NodeDescriptor → NodeRegistry → Result Status (Unit {0}) × NodeRegistry
admit now d r =
    if is_empty d.node_id
    then (err empty_node_id, r)
    else (if d.bandwidth == 0 then (err zero_bandwidth, r) else (ok tt, register_node now d r))

unfoldable pub serve_remove : List ℕ → NodeRegistry → Result Status (Unit {0}) × NodeRegistry
unfolding of_lookup
serve_remove id r = let (removed, r') = remove_node id r in (map_err of_lookup removed, r')

unfoldable pub serve_heartbeat :
    ℕ → List ℕ → Option NodeMetrics → NodeRegistry → Result Status (Unit {0}) × NodeRegistry
unfolding of_lookup
serve_heartbeat now id none r = (err metrics_required, r)
serve_heartbeat now id (some metrics) r =
    let (beaten, r') = update_heartbeat_with_metrics now id metrics r in
    (map_err of_lookup beaten, r')

module _ (to_text : SocketAddr → List ℕ) (parse : List ℕ → Option SocketAddr) where
  unfoldable pub serve_register :
      ℕ → ProtoDescriptor → NodeRegistry → Result Status (Unit {0}) × NodeRegistry
  unfolding admit
  serve_register now request r = elim (descriptor_from_proto to_text parse request) [
    | err e ↦ (err (invalid_argument e), r)
    | ok d ↦ admit now d r
  ]

  unfoldable pub serve_all_nodes : NodeRegistry → List ProtoDescriptor × ℕ
  serve_all_nodes r =
      let nodes = get_all_nodes r in (map (descriptor_to_proto to_text parse) nodes, length nodes)

  unfoldable pub serve_random_path :
      (ℕ → ℕ → ℕ) → ℕ → NodeRegistry → Result Status (List ProtoDescriptor)
  unfolding of_path
  serve_random_path draw count r =
      map_err of_path (get_random_path draw r (if ltb count 3 then 3 else count)) >>= λ path.
      ok (map (descriptor_to_proto to_text parse) path)
