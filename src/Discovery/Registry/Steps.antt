-- ===== src/Discovery/Registry/Steps.antt =====
-- The registry through any sequence of its operations.
use nopanic.Prelude.{
  ℕ, List, [], ◌∷◌, Option, none, some, Bool, not, ◌≡◌, refl, sym, ap, ◌∙◌, Option-cases, inl, inr,
  bytes_eq, retain, All-mono, All-retain, All-and, retain-All, Pairwise-retain,
}
use nopanic.Discovery.{NodeDescriptor}
use nopanic.Discovery.Registry.{
  NodeEntry, NodeMetrics, NodeRegistry, found_or_not, lookup, modify, keeps, renewed, register_node,
  new_registry, update_heartbeat, update_heartbeat_with_metrics, remove_node, cleanup_stale_nodes,
}
use nopanic.Discovery.Registry.Valid.{
  Slot, Separate, Keyed, Valid, modify-All, modify-Separate, modify-Separate_same, lookup-none,
  keeps-ne,
}

-- The calls that change the registry, each with the instant at which it is made.
pub data Call : Type 0 where
  registers : (now : ℕ) (d : NodeDescriptor) → Call
  beats : (now : ℕ) (id : List ℕ) → Call
  reports : (now : ℕ) (id : List ℕ) (metrics : NodeMetrics) → Call
  removes : (id : List ℕ) → Call
  cleans : (now timeout : ℕ) → Call

abbrev pub run : Call → NodeRegistry → NodeRegistry
run (registers now d) r = register_node now d r
run (beats now id) r = (update_heartbeat now id r).1
run (reports now id metrics) r = (update_heartbeat_with_metrics now id metrics r).1
run (removes id) r = (remove_node id r).1
run (cleans now timeout) r = (cleanup_stale_nodes now timeout r).1

abbrev pub run_all : List Call → NodeRegistry → NodeRegistry
run_all [] r = r
run_all (c ∷ cs) r = run_all cs (run c r)

retain-Valid :
    (t : Slot → Bool) (r : NodeRegistry) → Valid r → Valid (record r { nodes = retain t r.nodes })
retain-Valid t r v = record {
  separate = Pairwise-retain Separate t r.nodes v.separate;
  keyed = All-retain Keyed t r.nodes v.keyed;
}

modify-Valid :
    (id : List ℕ) (f : NodeEntry → NodeEntry)
    → ((e : NodeEntry) → (f e).descriptor ≡ e.descriptor)
    → (r : NodeRegistry) → Valid r
    → Valid (record r { nodes = modify id f r.nodes })
modify-Valid id f same r v = record {
  separate = modify-Separate_same id f same r.nodes v.separate;
  keyed =
      modify-All Keyed id f (λ k e _ keyed. ap (λ d. d.node_id) (same e) ∙ keyed) r.nodes v.keyed;
}

register_node-Valid :
    (now : ℕ) (d : NodeDescriptor) (r : NodeRegistry) → Valid r → Valid (register_node now d r)
unfolding register_node
register_node-Valid now d r v =
    let kept = retain (keeps d) r.nodes in
    let keeps_kept = retain-All (keeps d) r.nodes in
    let separate = Pairwise-retain Separate (keeps d) r.nodes v.separate in
    let keyed = All-retain Keyed (keeps d) r.nodes v.keyed in
    elim (Option-cases (lookup d.node_id kept)) [
      | inl e ↦
          let apart =
            All-mono (λ (k, f) (ne, keep). ((λ h. ne (sym h)), keeps-ne d k f keep ne)) kept
              (All-and _ _ kept (lookup-none d.node_id kept e) keeps_kept) in
          rw (register_node, e) (record { separate = (apart, separate); keyed = (refl, keyed) })
      | inr (old, e) ↦
          rw (register_node, e)
            (record {
              separate = modify-Separate d now kept keeps_kept separate;
              keyed =
                  modify-All Keyed d.node_id (renewed d now) (λ k f is_id _. sym is_id) kept keyed;
            })
    ]

found_or_not-Valid :
    (o : Option NodeEntry) (id : List ℕ) (r changed : NodeRegistry)
    → Valid r
    → Valid changed
    → Valid (found_or_not o id r changed).1
found_or_not-Valid none id r changed v w = v
found_or_not-Valid (some e) id r changed v w = w

pub run-Valid : (c : Call) (r : NodeRegistry) → Valid r → Valid (run c r)
unfolding update_heartbeat update_heartbeat_with_metrics remove_node cleanup_stale_nodes
run-Valid (registers now d) r v = register_node-Valid now d r v
run-Valid (beats now id) r v =
    found_or_not-Valid (lookup id r.nodes) id r _ v (modify-Valid id _ (λ e. refl) r v)
run-Valid (reports now id metrics) r v =
    found_or_not-Valid (lookup id r.nodes) id r _ v (modify-Valid id _ (λ e. refl) r v)
run-Valid (removes id) r v =
    found_or_not-Valid (lookup id r.nodes) id r _ v
      (retain-Valid (λ (key, e). not (bytes_eq key id)) r v)
run-Valid (cleans now timeout) r v = retain-Valid _ r v

-- After any sequence of registrations, heartbeats, reports, removals and clean-ups of a new registry
-- no two entries have the same id or the same address, and each stands under the id of its
-- descriptor.
pub run_all-Valid :
    (calls : List Call) (allow_same_ip : Bool) → Valid (run_all calls (new_registry allow_same_ip))
unfolding new_registry
run_all-Valid calls allow_same_ip = go calls _ (record { separate = tt; keyed = tt })
  where
    go : (calls : List Call) (r : NodeRegistry) → Valid r → Valid (run_all calls r)
    go [] r v = v
    go (c ∷ cs) r v = go cs (run c r) (run-Valid c r v)
