-- ===== src/Discovery/Path/Enough.antt =====
-- When `get_random_path` gives a path.
use nopanic.Prelude.{
  ℕ, ◌-◌, ◌≤◌, ◌<◌, List, [], ◌∷◌, ◌++◌, Bool, false, ok, length, ◌≡◌, ◌≢◌, refl, sym, ◌∙◌, arith,
  All, Pairwise, All-mono, All-and, get_elem_of_lt, Pairwise-map-retain, Pairwise-cross,
  le→ltb_false,
}
use nopanic.Discovery.{NodeDescriptor, NodeType}
use nopanic.Discovery.Policy.{is_empty}
use nopanic.Discovery.Registry.{NodeRegistry, get_nodes_by_type, get_all_nodes}
use nopanic.Discovery.Path.{select_weighted_node, exclude, get_random_path}
use nopanic.Discovery.Path.Diverse.{Apart, Apart-symm}
use nopanic.Discovery.Path.Random.{none_yet, get_nodes_by_type-All, select_weighted_node-All}
use nopanic.Discovery.Path.Slots.{
  InRange, select_weighted_index-lt, Free, ip_ok-exclude, op_ok-exclude, pick_middles_some,
  none_yet-Free,
}

Free-of_both :
    (allow_same_ip : Bool) (a b n : NodeDescriptor)
    → Apart allow_same_ip a n
    → Apart allow_same_ip b n
    → Free allow_same_ip (exclude allow_same_ip b (exclude allow_same_ip a none_yet)) n
Free-of_both allow a b n from_a from_b =
    let (ip, op) = none_yet-Free allow n in
    let x = exclude allow a none_yet in
    let ip' = ip_ok-exclude allow none_yet a n ip from_a in
    let op' = op_ok-exclude allow none_yet a n op from_a in
    (ip_ok-exclude allow x b n ip' from_b, op_ok-exclude allow x b n op' from_b)

select_weighted_node_some :
    (draw : ℕ → ℕ → ℕ)
    → InRange draw
    → (k : ℕ) (nodes : List NodeDescriptor) → 0 < length nodes
    → (n : NodeDescriptor) × (select_weighted_node draw k nodes ≡ ok n)
unfolding select_weighted_node
select_weighted_node_some draw range k nodes pos =
    let (i, chosen, lt) = select_weighted_index-lt draw range k nodes pos in
    let (n, found) = get_elem_of_lt i nodes lt in (n, rw (chosen, found) refl)

not_empty {ℓ} : {A : Type ℓ} (xs : List A) → 0 < length xs → is_empty xs ≡ false
not_empty [] pos = absurd (omega arith)
not_empty (x ∷ xs) pos = refl

-- All nodes of another type are apart from the node.
abbrev Row : NodeRegistry → NodeDescriptor → Type 0
Row r a = All (λ b. a.node_type ≢ b.node_type → Apart r.allow_same_ip a b) (get_all_nodes r)

Row-Apart :
    (r : NodeRegistry) (s t : NodeType) (a : NodeDescriptor)
    → s ≢ t
    → Row r a × (a.node_type ≡ s)
    → All (Apart r.allow_same_ip a) (get_nodes_by_type t r)
Row-Apart r s t a ne (row, is_s) =
    All-mono (λ b (apart, is_t). apart (λ e. ne (sym is_s ∙ (e ∙ is_t)))) _
      (get_nodes_by_type-All _ t r row)

middles-Pairwise :
    (r : NodeRegistry)
    → Pairwise (Apart r.allow_same_ip) (get_all_nodes r)
    → Pairwise (Apart r.allow_same_ip) (get_nodes_by_type NodeType.middle r)
unfolding get_nodes_by_type get_all_nodes
middles-Pairwise r apart =
    Pairwise-map-retain (λ (key, e). e.descriptor) (Apart r.allow_same_ip) _ r.nodes apart

-- When every two nodes of the registry are apart, it has an entry, an exit and as many middles as
-- are asked for, and the hops are at least three, get_random_path gives a path, whatever is drawn in
-- range.
pub get_random_path_some :
    (draw : ℕ → ℕ → ℕ) (r : NodeRegistry) (count : ℕ)
    → InRange draw
    → 3 ≤ count
    → 0 < length (get_nodes_by_type NodeType.entry r)
    → 0 < length (get_nodes_by_type NodeType.exit r)
    → count - 2 ≤ length (get_nodes_by_type NodeType.middle r)
    → Pairwise (Apart r.allow_same_ip) (get_all_nodes r)
    → (path : List NodeDescriptor) × (get_random_path draw r count ≡ ok path)
unfolding get_random_path
get_random_path_some draw r count range three entries exits middles apart =
    let allow = r.allow_same_ip in
    let rows = Pairwise-cross (Apart allow) (Apart-symm allow) (λ n. n.node_type) _ apart in
    let (exit_node, exit_drawn) = select_weighted_node_some draw range 0 _ exits in
    let (entry_node, entry_drawn) = select_weighted_node_some draw range 1 _ entries in
    let exit_row =
      select_weighted_node-All _ draw 0 _ exit_node exit_drawn
        (get_nodes_by_type-All (Row r) NodeType.exit r rows) in
    let entry_row =
      select_weighted_node-All _ draw 1 _ entry_node entry_drawn
        (get_nodes_by_type-All (Row r) NodeType.entry r rows) in
    let exit_entry : Apart allow exit_node entry_node =
      select_weighted_node-All _ draw 1 _ entry_node entry_drawn
        (Row-Apart r NodeType.exit NodeType.entry exit_node (λ e. ground (arith, e)) exit_row) in
    let (ip0, op0) = none_yet-Free allow entry_node in
    let x = exclude allow exit_node none_yet in
    let ip1 = ip_ok-exclude allow none_yet exit_node entry_node ip0 exit_entry in
    let op1 = op_ok-exclude allow none_yet exit_node entry_node op0 exit_entry in
    let free =
      All-mono
        (λ n (from_exit, from_entry).
          Free-of_both allow exit_node entry_node n from_exit from_entry)
        _
        (All-and _ _ (get_nodes_by_type NodeType.middle r)
          (Row-Apart r NodeType.exit NodeType.middle exit_node (λ e. ground (arith, e)) exit_row)
          (Row-Apart r NodeType.entry NodeType.middle entry_node (λ e. ground (arith, e))
            entry_row)) in
    let (path, drawn) =
      pick_middles_some allow draw range (count - 2) 2 _ (exclude allow entry_node x) middles
        (middles-Pairwise r apart) free in
    (
      entry_node ∷ (path ++ (exit_node ∷ [])),
      rw
          (
            le→ltb_false 3 count three,
            not_empty _ entries,
            not_empty _ exits,
            not_empty (get_nodes_by_type NodeType.middle r) (omega (arith, three, middles)),
            le→ltb_false _ _ middles,
            exit_drawn,
            entry_drawn,
            ip1,
            op1,
            drawn,
          )
          refl,
    )
