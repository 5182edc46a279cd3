-- ===== src/Discovery/Path/Random.antt =====
-- What `get_random_path` gives, from the first node to the last.
use nopanic.Prelude.{
  ℕ, ◌-◌, List, [], ◌∷◌, ◌++◌, Bool, true, not, ok, length, get_elem?, ltb, ◌≤◌, ◌≡◌, refl, sym, ap,
  subst, ◌∙◌, arith, bind-ok, ensure-ok, ok_or-ok, ok-inj, All, Pairwise, All-mono, All-retain,
  All-get_elem, retain-All, All-snoc, Pairwise-snoc, All-map, All-of_map, All-and, All-Mem,
  length-snoc, ◌&&◌,
}
use mathlib.Core.List.{Mem}
use nopanic.Discovery.{NodeDescriptor, NodeType, node_type_eq}
use nopanic.Discovery.Policy.{is_empty}
use nopanic.Discovery.Registry.{
  NodeRegistry, too_few_hops, no_entry_nodes, no_middle_nodes, too_few_middles, no_exit_nodes,
  shared_ip, shared_operator, empty_list, get_nodes_by_type, get_all_nodes,
}
use nopanic.Discovery.Path.{
  Excluded, select_weighted_index, select_weighted_node, ip_ok, op_ok, exclude, pick_middles,
  get_random_path,
}
use nopanic.Discovery.Path.Diverse.{
  Apart, Apart-symm, exclude-Covered, exclude_mono, Apart-of_ok, pick_middles-Middles,
  pick_middles-All,
}

node_type_eq→eq : (a b : NodeType) → node_type_eq a b ≡ true → a ≡ b
node_type_eq→eq NodeType.entry NodeType.entry h = refl
node_type_eq→eq NodeType.middle NodeType.middle h = refl
node_type_eq→eq NodeType.exit NodeType.exit h = refl
node_type_eq→eq _ _ h = absurd (ground arith)

-- A node of the registry, of the type that its place asks for.
abbrev pub Listed : NodeRegistry → NodeType → NodeDescriptor → Type 0
Listed r t n = Mem n (get_all_nodes r) × (n.node_type ≡ t)

pub get_nodes_by_type-All {κ} :
    (P : NodeDescriptor → Type κ) (t : NodeType) (r : NodeRegistry)
    → All P (get_all_nodes r)
    → All (λ n. P n × (n.node_type ≡ t)) (get_nodes_by_type t r)
unfolding get_nodes_by_type get_all_nodes
get_nodes_by_type-All P t r all =
    All-map (λ (key, e). e.descriptor) (λ n. P n × (n.node_type ≡ t)) _
      (All-and _ _ _ (All-retain _ _ r.nodes (All-of_map (λ (key, e). e.descriptor) P r.nodes all))
        (All-mono (λ (key, e) h. node_type_eq→eq e.descriptor.node_type t h) _
          (retain-All (λ (key, e). node_type_eq e.descriptor.node_type t) r.nodes)))

get_nodes_by_type-Listed :
    (t : NodeType) (r : NodeRegistry) → All (Listed r t) (get_nodes_by_type t r)
get_nodes_by_type-Listed t r =
    get_nodes_by_type-All (λ n. Mem n (get_all_nodes r)) t r (All-Mem (get_all_nodes r))

pub select_weighted_node-All {κ} :
    (P : NodeDescriptor → Type κ) (draw : ℕ → ℕ → ℕ) (k : ℕ) (nodes : List NodeDescriptor)
    (n : NodeDescriptor)
    → select_weighted_node draw k nodes ≡ ok n
    → All P nodes
    → P n
unfolding select_weighted_node
select_weighted_node-All P draw k nodes n h ps =
    let (idx, _, found) = bind-ok (select_weighted_index draw k nodes) _ n h in
    All-get_elem P idx nodes n (ok_or-ok (get_elem? nodes idx) empty_list n found) ps

abbrev pub none_yet : Excluded
none_yet = record { ips = []; ops = [] }

-- The parts of a path, as the code comes by them.
record Parts (draw : ℕ → ℕ → ℕ) (r : NodeRegistry) (count : ℕ) (path : List NodeDescriptor)
    : Type 0 where
  entry_node : NodeDescriptor
  middles : List NodeDescriptor
  exit_node : NodeDescriptor
  enough : not (ltb count 3) ≡ true
  entry_drawn : select_weighted_node draw 1 (get_nodes_by_type NodeType.entry r) ≡ ok entry_node
  exit_drawn : select_weighted_node draw 0 (get_nodes_by_type NodeType.exit r) ≡ ok exit_node
  entry_free :
      (ip_ok r.allow_same_ip (exclude r.allow_same_ip exit_node none_yet) entry_node
        && op_ok r.allow_same_ip (exclude r.allow_same_ip exit_node none_yet) entry_node)
      ≡ true
  middles_drawn :
      pick_middles r.allow_same_ip draw 2
        (count - 2)
        (get_nodes_by_type NodeType.middle r)
        (exclude r.allow_same_ip entry_node (exclude r.allow_same_ip exit_node none_yet))
      ≡ ok middles
  path_eq : path ≡ entry_node ∷ (middles ++ (exit_node ∷ []))

at_least_three : (count : ℕ) → not (ltb count 3) ≡ true → 3 ≤ count
at_least_three count h = ground (arith, h)

true_and : (a b : Bool) → a ≡ true → b ≡ true → (a && b) ≡ true
true_and a b p q = rw (p, q) refl

get_random_path-Parts :
    (draw : ℕ → ℕ → ℕ) (r : NodeRegistry) (count : ℕ) (path : List NodeDescriptor)
    → get_random_path draw r count ≡ ok path
    → Parts draw r count path
unfolding get_random_path
get_random_path-Parts draw r count path h =
    let entries = get_nodes_by_type NodeType.entry r in
    let middle_nodes = get_nodes_by_type NodeType.middle r in
    let exits = get_nodes_by_type NodeType.exit r in
    let allow = r.allow_same_ip in
    let (enough, h1) = ensure-ok (not (ltb count 3)) too_few_hops _ path h in
    let (_, h2) = ensure-ok (not (is_empty entries)) no_entry_nodes _ path h1 in
    let (_, h3) = ensure-ok (not (is_empty middle_nodes)) no_middle_nodes _ path h2 in
    let (_, h4) =
      ensure-ok (not (ltb (length middle_nodes) (count - 2))) too_few_middles _ path h3 in
    let (_, h5) = ensure-ok (not (is_empty exits)) no_exit_nodes _ path h4 in
    let (exit_node, exit_drawn, h6) = bind-ok (select_weighted_node draw 0 exits) _ path h5 in
    let (entry_node, entry_drawn, h7) = bind-ok (select_weighted_node draw 1 entries) _ path h6 in
    let x = exclude allow exit_node none_yet in
    let (ip, h8) = ensure-ok (ip_ok allow x entry_node) shared_ip _ path h7 in
    let (op, h9) = ensure-ok (op_ok allow x entry_node) shared_operator _ path h8 in
    let (middles, drawn, h10) =
      bind-ok (pick_middles allow draw 2 (count - 2) middle_nodes (exclude allow entry_node x)) _
        path h9 in
    record {
      entry_node = entry_node;
      middles = middles;
      exit_node = exit_node;
      enough = enough;
      entry_drawn = entry_drawn;
      exit_drawn = exit_drawn;
      entry_free = true_and _ _ ip op;
      middles_drawn = drawn;
      path_eq = sym (ok-inj h10);
    }

-- A path of `count` nodes of the registry: an entry, then middles, then an exit, and every two of
-- them apart.
pub record PathOf (r : NodeRegistry) (count : ℕ) (path : List NodeDescriptor) : Type 0 where
  pub entry_node : NodeDescriptor
  pub middles : List NodeDescriptor
  pub exit_node : NodeDescriptor
  pub shape : path ≡ entry_node ∷ (middles ++ (exit_node ∷ []))
  pub hops : length path ≡ count
  pub entry_listed : Listed r NodeType.entry entry_node
  pub middles_listed : All (Listed r NodeType.middle) middles
  pub exit_listed : Listed r NodeType.exit exit_node
  pub apart : Pairwise (Apart r.allow_same_ip) path

-- Whatever is drawn, a path that get_random_path gives has as many nodes as were asked for, at least
-- three. They are nodes of the registry, first an entry, last an exit, between them middles. No two
-- of them have the same operator, nor, unless the registry lets it through, the same address, a
-- loopback address apart.
pub get_random_path-PathOf :
    (draw : ℕ → ℕ → ℕ) (r : NodeRegistry) (count : ℕ) (path : List NodeDescriptor)
    → get_random_path draw r count ≡ ok path
    → PathOf r count path × (3 ≤ count)
get_random_path-PathOf draw r count path h =
    let p = get_random_path-Parts draw r count path h in
    let three = at_least_three count p.enough in
    let allow = r.allow_same_ip in
    let x = exclude allow p.exit_node none_yet in
    let exit_covered = exclude-Covered allow none_yet p.exit_node in
    let (slots, apart, covered) =
      pick_middles-Middles allow draw (count - 2) 2 _ (exclude allow p.entry_node x) p.middles
        p.middles_drawn in
    let exit_entry = Apart-of_ok allow x p.exit_node p.entry_node exit_covered p.entry_free in
    let entry_middles = covered p.entry_node (exclude-Covered allow x p.entry_node) in
    let exit_middles =
      covered p.exit_node (exclude_mono allow x p.entry_node p.exit_node exit_covered) in
    let middles_exit = All-mono (λ n. Apart-symm allow p.exit_node n) p.middles exit_middles in
    (
      record {
        entry_node = p.entry_node;
        middles = p.middles;
        exit_node = p.exit_node;
        shape = p.path_eq;
        hops = ap length p.path_eq ∙ omega (arith, length-snoc p.middles p.exit_node, slots, three);
        entry_listed =
            select_weighted_node-All (Listed r NodeType.entry) draw 1 _ p.entry_node p.entry_drawn
              (get_nodes_by_type-Listed NodeType.entry r);
        middles_listed =
            pick_middles-All allow (Listed r NodeType.middle) draw (count - 2) 2 _ _ p.middles
              p.middles_drawn (get_nodes_by_type-Listed NodeType.middle r);
        exit_listed =
            select_weighted_node-All (Listed r NodeType.exit) draw 0 _ p.exit_node p.exit_drawn
              (get_nodes_by_type-Listed NodeType.exit r);
        apart = subst (Pairwise (Apart allow)) (sym p.path_eq) (
          All-snoc (Apart allow p.entry_node) p.middles p.exit_node entry_middles
              (Apart-symm allow p.exit_node p.entry_node exit_entry),
          Pairwise-snoc (Apart allow) p.middles p.exit_node apart middles_exit,
        );
      },
      three,
    )
