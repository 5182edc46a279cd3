-- ===== src/Discovery/Path/Slots.antt =====
-- When the slots of a path are filled: a draw in range chooses a node, and nodes that are apart stay
-- free for the next slot.
use nopanic.Prelude.{
  ℕ, zero, suc, ◌+◌, ◌-◌, ◌≤◌, ◌<◌, List, [], ◌∷◌, none, some, Bool, true, false, not, ok, length,
  ltb, retain, erase_at, bytes_eq, contains, ◌≡◌, refl, sym, ap, subst, ◌∙◌, arith, ◌&&◌, ◌||◌,
  Bool-cases, Option-cases, inl, inr, All, Pairwise, All-mono, All-and, All-erase_at,
  Pairwise-erase_at, get_elem-erase_at, get_elem_of_lt, length-erase_at, retain_id, bytes_eq→eq,
  le→ltb_false, ◌==◌,
}
use nopanic.Discovery.{NodeDescriptor, ip_eq, ip_eq→eq}
use nopanic.Discovery.Path.{
  Excluded, scan, total_bandwidth, select_weighted_index, ip_exempt, ip_ok, op_ok, exclude,
  pick_middles,
}
use nopanic.Discovery.Path.Diverse.{Apart, Apart-symm}
use nopanic.Discovery.Path.Random.{none_yet}

-- `random_range(0..n)` gives a number below n.
abbrev pub InRange : (ℕ → ℕ → ℕ) → Type 0
InRange draw = (k n : ℕ) → 0 < n → draw k n < n

scan-lt :
    (last i weight bound : ℕ) (nodes : List NodeDescriptor)
    → last < bound
    → i + length nodes ≤ bound
    → scan last i weight nodes < bound
unfolding scan
scan-lt last i weight bound [] p q = p
scan-lt last i weight bound (n ∷ ns) p q = elim (Bool-cases (ltb weight n.bandwidth)) [
  | inl e ↦ rw e (omega arith)
  | inr e ↦ rw e (scan-lt last (suc i) (weight - n.bandwidth) bound ns p (omega arith))
]

-- Some node is chosen, whatever the bandwidths.
pub select_weighted_index-lt :
    (draw : ℕ → ℕ → ℕ)
    → InRange draw
    → (k : ℕ) (nodes : List NodeDescriptor) → 0 < length nodes
    → (i : ℕ) × (select_weighted_index draw k nodes ≡ ok i) × (i < length nodes)
unfolding select_weighted_index
select_weighted_index-lt draw range k [] pos = absurd (omega arith)
select_weighted_index-lt draw range k (n ∷ ns) pos =
    let nodes : List NodeDescriptor = n ∷ ns in
    elim (Bool-cases (total_bandwidth nodes == 0)) [
      | inl e ↦ (draw k (length nodes), rw e refl, range k (length nodes) pos)
      | inr e ↦ (
        scan (length nodes - 1) 0 (draw k (total_bandwidth nodes)) nodes,
        rw e refl,
        scan-lt (length nodes - 1) 0 _ (length nodes) nodes (omega arith) (omega arith),
      )
    ]

or-false : (a b : Bool) → (a || b) ≡ false → (a ≡ false) × (b ≡ false)
or-false false false h = (refl, refl)
or-false false true h = absurd (ground arith)
or-false true b h = absurd (ground arith)

module _ (allow_same_ip : Bool) where
  -- What is excluded lets the node through.
  abbrev pub Free : Excluded → NodeDescriptor → Type 0
  Free x n = (ip_ok allow_same_ip x n ≡ true) × (op_ok allow_same_ip x n ≡ true)

  pub ip_ok-exclude :
      (x : Excluded) (m n : NodeDescriptor)
      → ip_ok allow_same_ip x n ≡ true
      → Apart allow_same_ip m n
      → ip_ok allow_same_ip (exclude allow_same_ip m x) n ≡ true
  unfolding exclude contains
  ip_ok-exclude x m n free (ips, _) = elim (Bool-cases (ip_exempt allow_same_ip m)) [
    | inl e ↦ rw e free
    | inr e ↦
        let (strict, public) = or-false _ _ e in
        elim (Bool-cases (ip_eq m.address.ip n.address.ip)) [
          | inl q ↦ absurd (ips strict public (ip_eq→eq _ _ q))
          | inr q ↦ rw (e, q) free
        ]
  ]

  pub op_ok-exclude :
      (x : Excluded) (m n : NodeDescriptor)
      → op_ok allow_same_ip x n ≡ true
      → Apart allow_same_ip m n
      → op_ok allow_same_ip (exclude allow_same_ip m x) n ≡ true
  unfolding exclude contains
  op_ok-exclude x m n free (_, ops) = elim (Option-cases m.operator_id) [
    | inl e ↦ rw e free
    | inr (o, e) ↦ elim (Option-cases n.operator_id) [
      | inl en ↦ rw (e, en) refl
      | inr (o', en) ↦
          let allowed : not (contains bytes_eq o' x.ops) ≡ true =
            subst
              (λ op. elim op [ none ↦ true | some op ↦ not (contains bytes_eq op x.ops) ] ≡ true) en
              free in
          elim (Bool-cases (bytes_eq o o')) [
            | inl q ↦ absurd (ops o e (en ∙ ap some (sym (bytes_eq→eq o o' q))))
            | inr q ↦ rw (e, en, q) allowed
          ]
    ]
  ]

  pub pick_middles_some :
      (draw : ℕ → ℕ → ℕ)
      → InRange draw
      → (slots k : ℕ) (available : List NodeDescriptor) (x : Excluded) → slots ≤ length available
      → Pairwise (Apart allow_same_ip) available
      → All (Free x) available
      → (path : List NodeDescriptor) × (pick_middles allow_same_ip draw k slots available x
          ≡ ok path)
  unfolding pick_middles
  pick_middles_some draw range zero k available x enough apart free = ([], refl)
  pick_middles_some draw range (suc slots) k available x enough apart free =
      let keeps_all : retain (λ n. ip_ok allow_same_ip x n && op_ok allow_same_ip x n) available
          ≡ available =
        retain_id _ available (All-mono (λ n (p, q). rw (p, q) refl) available free) in
      let (i, chosen, lt) = select_weighted_index-lt draw range k available (omega arith) in
      let (node, found) = get_elem_of_lt i available lt in
      let left = length-erase_at i available lt in
      let from_node =
        get_elem-erase_at (Apart allow_same_ip) (Apart-symm allow_same_ip) i available node found
          apart in
      let free' =
        All-mono (λ n (a, (p, q)). (ip_ok-exclude x node n p a, op_ok-exclude x node n q a)) _
          (All-and _ _ (erase_at i available) from_node (All-erase_at (Free x) i available free)) in
      let (rest, later) =
        pick_middles_some draw range slots (suc k) (erase_at i available)
          (exclude allow_same_ip node x) (omega (arith, left))
          (Pairwise-erase_at (Apart allow_same_ip) i available apart) free' in
      (node ∷ rest, rw (keeps_all, le→ltb_false _ _ enough, chosen, found, later) refl)

  pub none_yet-Free : (n : NodeDescriptor) → Free none_yet n
  unfolding contains
  none_yet-Free n = (
    elim (Bool-cases (ip_exempt allow_same_ip n)) [ inl e ↦ rw e refl | inr e ↦ rw e refl ],
    elim (Option-cases n.operator_id) [ inl e ↦ rw e refl | inr (op, e) ↦ rw e refl ],
  )
