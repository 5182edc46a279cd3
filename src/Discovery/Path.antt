-- ===== src/Discovery/Path.antt =====
-- services/discovery/src/core/registry.rs: `select_weighted_index` and `get_random_path`.
-- `draw i n` is what the `i`th call of `random_range(0..n)` on the path's generator gives.
pub mod Weights
pub mod Diverse
pub mod Random
pub mod Slots
pub mod Enough
use nopanic.Prelude.{
  ℕ, zero, suc, ◌+◌, ◌-◌, ◌%◌, List, [], ◌∷◌, ◌++◌, Option, none, some, Bool, true, not, ◌||◌, ◌&&◌,
  Result, ok, err, ok_or, ◌>>=◌, ◌>>◌, ensure, length, get_elem?, ltb, bytes_eq, retain, erase_at,
  contains, ◌==◌, if◌then◌else◌,
}
use nopanic.Discovery.{NodeDescriptor, NodeType, IpAddr, ip_eq, is_loopback}
use nopanic.Discovery.Policy.{is_empty}
use nopanic.Discovery.Registry.{
  NodeRegistry, RegistryError, too_few_hops, no_entry_nodes, no_middle_nodes, too_few_middles,
  no_exit_nodes, shared_ip, shared_operator, too_few_apart, empty_list, get_nodes_by_type,
}

-- `sum()` of the bandwidths, on u64.
unfoldable pub total_bandwidth : List NodeDescriptor → ℕ
total_bandwidth [] = 0
total_bandwidth (n ∷ ns) = (n.bandwidth + total_bandwidth ns) % 18446744073709551616

-- The loop over the nodes from index `i` on, with the weight that is left; `last` where it runs out.
unfoldable pub scan : ℕ → ℕ → ℕ → List NodeDescriptor → ℕ
scan last i weight [] = last
scan last i weight (n ∷ ns) =
    if ltb weight n.bandwidth then i else scan last (suc i) (weight - n.bandwidth) ns

-- The addresses and operators that a path may not share with the nodes chosen so far.
pub record Excluded : Type 0 where
  pub ips : List IpAddr
  pub ops : List (List ℕ)

module _ (draw : ℕ → ℕ → ℕ) where
  unfoldable pub select_weighted_index : ℕ → List NodeDescriptor → Result RegistryError ℕ
  unfolding scan
  select_weighted_index k nodes = do
    ensure (not (is_empty nodes)) empty_list
    (let total = total_bandwidth nodes in
        if total == 0
        then ok (draw k (length nodes))
        else ok (scan (length nodes - 1) 0 (draw k total) nodes))

  unfoldable pub select_weighted_node :
      ℕ → List NodeDescriptor → Result RegistryError NodeDescriptor
  select_weighted_node k nodes = do
    idx ← select_weighted_index k nodes
    ok_or (get_elem? nodes idx) empty_list

module _ (allow_same_ip : Bool) where
  abbrev pub ip_exempt : NodeDescriptor → Bool
  ip_exempt n = allow_same_ip || is_loopback n.address.ip

  abbrev pub ip_ok : Excluded → NodeDescriptor → Bool
  ip_ok x n = ip_exempt n || not (contains ip_eq n.address.ip x.ips)

  abbrev pub op_ok : Excluded → NodeDescriptor → Bool
  op_ok x n = elim n.operator_id [ none ↦ true | some op ↦ not (contains bytes_eq op x.ops) ]

  abbrev pub with_ip : NodeDescriptor → List IpAddr → List IpAddr
  with_ip n ips = if ip_exempt n then ips else n.address.ip ∷ ips

  abbrev pub with_op : Option (List ℕ) → List (List ℕ) → List (List ℕ)
  with_op none ops = ops
  with_op (some op) ops = op ∷ ops

  -- A node is committed to the path.
  unfoldable pub exclude : NodeDescriptor → Excluded → Excluded
  exclude n x = record { ips = with_ip n x.ips; ops = with_op n.operator_id x.ops }

  -- The loop over the slots of the middle nodes: `slots` are left, and `k` draws have been made.
  unfoldable pub pick_middles :
      (ℕ → ℕ → ℕ)
      → ℕ
      → ℕ
      → List NodeDescriptor
      → Excluded
      → Result RegistryError (List NodeDescriptor)
  pick_middles draw k zero available x = ok []
  pick_middles draw k (suc slots) available x =
      let free = retain (λ n. ip_ok x n && op_ok x n) available in
      do
        ensure (not (ltb (length free) (suc slots))) too_few_apart
        idx ← select_weighted_index draw k free
        node ← ok_or (get_elem? free idx) empty_list
        rest ← pick_middles draw (suc k) slots (erase_at idx free) (exclude node x)
        ok (node ∷ rest)

unfoldable pub get_random_path :
    (ℕ → ℕ → ℕ) → NodeRegistry → ℕ → Result RegistryError (List NodeDescriptor)
get_random_path draw r count =
    let entry_nodes = get_nodes_by_type NodeType.entry r in
    let middle_nodes = get_nodes_by_type NodeType.middle r in
    let exit_nodes = get_nodes_by_type NodeType.exit r in
    let none_yet : Excluded = record { ips = []; ops = [] } in
    do
      ensure (not (ltb count 3)) too_few_hops
      ensure (not (is_empty entry_nodes)) no_entry_nodes
      ensure (not (is_empty middle_nodes)) no_middle_nodes
      ensure (not (ltb (length middle_nodes) (count - 2))) too_few_middles
      ensure (not (is_empty exit_nodes)) no_exit_nodes
      exit_node ← select_weighted_node draw 0 exit_nodes
      entry_node ← select_weighted_node draw 1 entry_nodes
      ensure (ip_ok r.allow_same_ip (exclude r.allow_same_ip exit_node none_yet) entry_node)
          shared_ip
      ensure (op_ok r.allow_same_ip (exclude r.allow_same_ip exit_node none_yet) entry_node)
          shared_operator
      middles ←
          pick_middles r.allow_same_ip draw 2 (count - 2) middle_nodes
            (exclude r.allow_same_ip entry_node (exclude r.allow_same_ip exit_node none_yet))
      ok (entry_node ∷ (middles ++ (exit_node ∷ [])))
