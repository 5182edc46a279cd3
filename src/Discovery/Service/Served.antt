-- ===== src/Discovery/Service/Served.antt =====
-- services/discovery/src/api/grpc.rs: the registry through any sequence of calls of the service.
use nopanic.Prelude.{
  Result-cases, ℕ, ◌<◌, ◌≡◌, ◌≢◌, ap, List, [], ◌∷◌, Option, none, some, Bool, false, not, ◌==◌,
  Bool-cases, Option-cases, inl, inr, arith, All, All-retain, bytes_eq, retain,
}
use nopanic.Proto.{ProtoDescriptor, descriptor_from_proto}
use nopanic.Discovery.{SocketAddr, NodeDescriptor}
use nopanic.Discovery.Policy.{is_empty}
use nopanic.Discovery.Registry.{
  NodeEntry, NodeMetrics, NodeRegistry, found_or_not, lookup, keeps, renewed, register_node,
  remove_node, update_heartbeat_with_metrics, cleanup_stale_nodes, new_registry,
}
use nopanic.Discovery.Registry.Valid.{Slot, Valid, modify-All}
use nopanic.Discovery.Registry.Steps.{registers, reports, removes, cleans, run-Valid}
use nopanic.Discovery.Service.{admit, serve_register, serve_remove, serve_heartbeat}
use nopanic.Discovery.Service.Admission.{Sized, descriptor_from_proto-Sized}

-- A descriptor that the service has let in.
pub record Admitted (d : NodeDescriptor) : Type 0 where
  pub has_id : d.node_id ≢ []
  pub has_bandwidth : 0 < d.bandwidth
  pub sized : Sized d

abbrev pub AdmittedSlot : Slot → Type 0
AdmittedSlot (k, e) = Admitted e.descriptor

-- The registry behind the service.
pub record Sound (r : NodeRegistry) : Type 0 where
  pub valid : Valid r
  pub admitted : All AdmittedSlot r.nodes

-- The requests that change the registry, and the clean-up that the service runs beside them, each
-- with the instant at which it is made.
pub data Request : Type 0 where
  register : (now : ℕ) (request : ProtoDescriptor) → Request
  remove : (id : List ℕ) → Request
  heartbeat : (now : ℕ) (id : List ℕ) (metrics : Option NodeMetrics) → Request
  clean_up : (now timeout : ℕ) → Request

is_empty-ne : (xs : List ℕ) → is_empty xs ≡ false → xs ≢ []
is_empty-ne [] h _ = absurd (ground (arith, h))
is_empty-ne (x ∷ xs) h e = absurd (ground (arith, ap is_empty e))

pos : (n : ℕ) → (n == 0) ≡ false → 0 < n
pos n h = ground (arith, h)

module _ (r : NodeRegistry) (sound : Sound r) where
  register_node-Sound : (now : ℕ) (d : NodeDescriptor) → Admitted d → Sound (register_node now d r)
  unfolding register_node
  register_node-Sound now d good = record {
    valid = run-Valid (registers now d) r sound.valid;
    admitted = admitted;
  }
    where
      kept : All AdmittedSlot (retain (keeps d) r.nodes)
      kept = All-retain AdmittedSlot (keeps d) r.nodes sound.admitted

      admitted : All AdmittedSlot (register_node now d r).nodes
      admitted = elim (Option-cases (lookup d.node_id (retain (keeps d) r.nodes))) [
        | inl e ↦ rw (register_node, e) (good, kept)
        | inr (old, e) ↦
            rw (register_node, e)
              (modify-All AdmittedSlot d.node_id (renewed d now) (λ k f _ _. good)
                (retain (keeps d) r.nodes) kept)
      ]

  found_or_not-Admitted :
      (o : Option NodeEntry) (id : List ℕ) (changed : NodeRegistry)
      → All AdmittedSlot changed.nodes
      → All AdmittedSlot (found_or_not o id r changed).1.nodes
  found_or_not-Admitted none id changed _ = sound.admitted
  found_or_not-Admitted (some e) id changed w = w

  admit-Sound : (now : ℕ) (d : NodeDescriptor) → Sized d → Sound (admit now d r).1
  unfolding admit
  admit-Sound now d sized = elim (Bool-cases (is_empty d.node_id)) [
    | inl e ↦ rw e sound
    | inr named ↦ elim (Bool-cases (d.bandwidth == 0)) [
      | inl e ↦ rw (named, e) sound
      | inr some_bandwidth ↦
          rw (named, some_bandwidth)
            (register_node-Sound now d (record {
              has_id = is_empty-ne d.node_id named;
              has_bandwidth = pos d.bandwidth some_bandwidth;
              sized = sized;
            }))
    ]
  ]

module _ (to_text : SocketAddr → List ℕ) (parse : List ℕ → Option SocketAddr) where
  abbrev pub serve : Request → NodeRegistry → NodeRegistry
  serve (register now request) r = (serve_register to_text parse now request r).1
  serve (remove id) r = (serve_remove id r).1
  serve (heartbeat now id metrics) r = (serve_heartbeat now id metrics r).1
  serve (clean_up now timeout) r = (cleanup_stale_nodes now timeout r).1

  abbrev pub serve_all : List Request → NodeRegistry → NodeRegistry
  serve_all [] r = r
  serve_all (q ∷ qs) r = serve_all qs (serve q r)

  registered-Sound :
      (now : ℕ) (request : ProtoDescriptor) (r : NodeRegistry)
      → Sound r
      → Sound (serve_register to_text parse now request r).1
  unfolding serve_register
  registered-Sound now request r sound =
      elim (Result-cases (descriptor_from_proto to_text parse request)) [
        | inl (d, e) ↦
            rw (serve_register, e)
              (admit-Sound r sound now d (descriptor_from_proto-Sized to_text parse request d e))
        | inr (_, e) ↦ rw (serve_register, e) sound
      ]

  serve-Sound : (q : Request) (r : NodeRegistry) → Sound r → Sound (serve q r)
  unfolding serve_remove serve_heartbeat remove_node update_heartbeat_with_metrics
      cleanup_stale_nodes
  serve-Sound (register now request) r sound = registered-Sound now request r sound
  serve-Sound (remove id) r sound = record {
    valid = run-Valid (removes id) r sound.valid;
    admitted =
        found_or_not-Admitted r sound (lookup id r.nodes) id _
          (All-retain AdmittedSlot (λ (key, e). not (bytes_eq key id)) r.nodes sound.admitted);
  }
  serve-Sound (heartbeat now id none) r sound = sound
  serve-Sound (heartbeat now id (some metrics)) r sound = record {
    valid = run-Valid (reports now id metrics) r sound.valid;
    admitted =
        found_or_not-Admitted r sound (lookup id r.nodes) id _
          (modify-All AdmittedSlot id _ (λ k e _ good. good) r.nodes sound.admitted);
  }
  serve-Sound (clean_up now timeout) r sound = record {
    valid = run-Valid (cleans now timeout) r sound.valid;
    admitted = All-retain AdmittedSlot _ r.nodes sound.admitted;
  }

  -- After any sequence of registration, removal and heartbeat requests and clean-ups, whatever the
  -- requests hold, each node that the service lists has an id, a bandwidth, a key of 32 bytes and
  -- ports of 16 bits, and no two have one id or one address.
  pub serve_all-Sound :
      (requests : List Request) (allow_same_ip : Bool)
      → Sound (serve_all requests (new_registry allow_same_ip))
  unfolding new_registry
  serve_all-Sound requests allow_same_ip =
      go requests _ (record { valid = record { separate = tt; keyed = tt }; admitted = tt })
    where
      go : (qs : List Request) (r : NodeRegistry) → Sound r → Sound (serve_all qs r)
      go [] r v = v
      go (q ∷ qs) r v = go qs (serve q r) (serve-Sound q r v)
