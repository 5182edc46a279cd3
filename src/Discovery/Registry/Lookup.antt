-- ===== src/Discovery/Registry/Lookup.antt =====
-- What is found in the registry after a registration and after a clean-up.
use nopanic.Prelude.{
  ◌+◌, ◌-◌, ◌≤◌, length, ltb, leb, not, All, All-mono, retain-All, length-retain, ℕ, List, [], ◌∷◌,
  Option, none, some, Pairwise, Bool, true, false, ◌≡◌, ◌≢◌, refl, sym, ap, ◌∙◌, arith, Bool-cases,
  Option-cases, inl, inr, bytes_eq, bytes_eq→eq, bytes_eq_refl, retain, if◌then◌else◌,
}
use nopanic.Discovery.{NodeDescriptor}
use nopanic.Discovery.Registry.{
  NodeEntry, NodeRegistry, address_eq, lookup, modify, keeps, renewed, new_entry, register_node,
  cleanup_stale_nodes,
}
use nopanic.Discovery.Registry.Valid.{Slot, Separate, Valid, bytes_ne}

lookup-modify_self :
    (id : List ℕ) (f : NodeEntry → NodeEntry) (m : List Slot) (e : NodeEntry)
    → lookup id m ≡ some e
    → lookup id (modify id f m) ≡ some (f e)
unfolding lookup modify
lookup-modify_self id f [] e h = absurd (ground (arith, h))
lookup-modify_self id f ((k, g) ∷ m) e h = ground (arith, h, lookup-modify_self id f m e)

lookup-modify_other :
    (id j : List ℕ) (f : NodeEntry → NodeEntry) (m : List Slot)
    → j ≢ id
    → lookup j (modify id f m) ≡ lookup j m
unfolding lookup modify
lookup-modify_other id j f [] ne = refl
lookup-modify_other id j f ((k, g) ∷ m) ne =
    ground (arith, ne, bytes_eq→eq k id, bytes_eq→eq k j, lookup-modify_other id j f m)

bytes_other : (a b : List ℕ) → b ≢ a → bytes_eq a b ≡ false
bytes_other a b ne = elim (Bool-cases (bytes_eq a b)) [
  | inl q ↦ absurd (ne (sym (bytes_eq→eq a b q)))
  | inr q ↦ q
]

-- What a change that keeps only some entries leaves of one that was found.
abbrev pub kept_by : (NodeEntry → Bool) → Option NodeEntry → Option NodeEntry
kept_by t none = none
kept_by t (some e) = if t e then some e else none

lookup-none_of : (j : List ℕ) (m : List Slot) → All (λ (k, e). j ≢ k) m → lookup j m ≡ none
unfolding lookup
lookup-none_of j [] _ = refl
lookup-none_of j ((k, e) ∷ m) (ne, nes) = rw (lookup, bytes_other k j ne) (lookup-none_of j m nes)

-- An id stands once, so a `retain` keeps or loses what is found under it.
lookup-retain :
    (t : Slot → Bool) (j : List ℕ) (m : List Slot)
    → Pairwise Separate m
    → lookup j (retain t m) ≡ kept_by (λ e. t (j, e)) (lookup j m)
unfolding lookup retain
lookup-retain t j [] _ = refl
lookup-retain t j ((k, g) ∷ m) (apart, rest) = elim (Bool-cases (bytes_eq k j)) [
  | inl q ↦
      let same = bytes_eq→eq k j q in
      let here : t (k, g) ≡ t (j, g) = ap (λ i. t (i, g)) same in
      elim (Bool-cases (t (k, g))) [
        | inl kept ↦ rw (kept, q) (rw (sym here ∙ kept) refl)
        | inr gone ↦
            rw (gone, q)
              (rw (sym here ∙ gone)
                (lookup-retain t j m rest ∙ ap (kept_by (λ e. t (j, e))) (absent same)))
      ]
  | inr q ↦ elim (Bool-cases (t (k, g))) [
    | inl kept ↦ rw (kept, q) (lookup-retain t j m rest)
    | inr gone ↦ rw (gone, q) (lookup-retain t j m rest)
  ]
]
  where
    absent : k ≡ j → lookup j m ≡ none
    absent same = lookup-none_of j m (All-mono (λ (i, e) (ne, _) eq. ne (same ∙ eq)) m apart)

-- The entry of a node that registers: a new one, or the old one renewed.
abbrev pub registered : ℕ → NodeDescriptor → Option NodeEntry → NodeEntry
registered now d none = new_entry d now now
registered now d (some old) = record old { descriptor = d; last_heartbeat = now }

own_kept : (d : NodeDescriptor) (o : Option NodeEntry) → kept_by (λ e. keeps d (d.node_id, e)) o ≡ o
own_kept d none = refl
own_kept d (some e) = rw (bytes_eq_refl d.node_id) refl

elsewhere :
    (d : NodeDescriptor) (j : List ℕ)
    → j ≢ d.node_id
    → (o : Option NodeEntry)
    → kept_by (λ e. keeps d (j, e)) o
      ≡ kept_by (λ e. not (address_eq e.descriptor.address d.address)) o
elsewhere d j ne none = refl
elsewhere d j ne (some e) = rw (bytes_other j d.node_id (λ e. ne (sym e))) refl

module _ (now : ℕ) (d : NodeDescriptor) (r : NodeRegistry) (valid : Valid r) where
  kept : List Slot
  kept = retain (keeps d) r.nodes

  lookup-own : lookup d.node_id kept ≡ lookup d.node_id r.nodes
  unfolding kept
  lookup-own =
      lookup-retain (keeps d) d.node_id r.nodes valid.separate
      ∙ own_kept d (lookup d.node_id r.nodes)

  registered_self :
      lookup d.node_id (register_node now d r).nodes
      ≡ some (registered now d (lookup d.node_id r.nodes))
  unfolding register_node lookup kept
  registered_self = elim (Option-cases (lookup d.node_id kept)) [
    | inl e ↦ rw (register_node, e) (rw (bytes_eq_refl d.node_id, sym lookup-own ∙ e) refl)
    | inr (old, e) ↦
        rw (register_node, e)
          (lookup-modify_self d.node_id (renewed d now) kept old e
            ∙ ap (λ o. some (registered now d o)) (sym e ∙ lookup-own))
  ]

  registered_other :
      (j : List ℕ)
      → j ≢ d.node_id
      → lookup j (register_node now d r).nodes
        ≡ kept_by (λ e. not (address_eq e.descriptor.address d.address)) (lookup j r.nodes)
  unfolding register_node lookup kept
  registered_other j ne =
      let other =
        lookup-retain (keeps d) j r.nodes valid.separate ∙ elsewhere d j ne (lookup j r.nodes) in
      elim (Option-cases (lookup d.node_id kept)) [
        | inl e ↦ rw (register_node, e) (rw (bytes_other d.node_id j ne) other)
        | inr (old, e) ↦
            rw (register_node, e) (lookup-modify_other d.node_id j (renewed d now) kept ne ∙ other)
      ]

-- In a registry where ids and addresses stand once, a registration decides what is found under
-- every id. Under the id of the node it is the old entry with the new descriptor and heartbeat, or
-- a new one where there was none; under another id it is what was found before, but nothing where
-- that has the address of the new node.
pub register_node-lookup :
    (now : ℕ) (d : NodeDescriptor) (r : NodeRegistry) (j : List ℕ)
    → Valid r
    → lookup j (register_node now d r).nodes ≡ (
        if bytes_eq j d.node_id
        then some (registered now d (lookup d.node_id r.nodes))
        else kept_by (λ e. not (address_eq e.descriptor.address d.address)) (lookup j r.nodes))
register_node-lookup now d r j valid = elim (Bool-cases (bytes_eq j d.node_id)) [
  | inl q ↦ rw q (
      ap (λ i. lookup i (register_node now d r).nodes) (bytes_eq→eq j d.node_id q)
      ∙ registered_self now d r valid)
  | inr q ↦ rw q (registered_other now d r valid j (bytes_ne j d.node_id q))
]

stale_or_not : (timeout age : ℕ) → not (ltb timeout age) ≡ true → age ≤ timeout
stale_or_not timeout age h = ground (arith, h)

-- In a registry where ids stand once, what is found under any id after a clean-up is what was found
-- before it, but nothing where the last heartbeat is older than the timeout. No entry that is left
-- is older, and the answer counts the entries that went.
pub cleanup_stale_nodes-lookup :
    (now timeout : ℕ) (r : NodeRegistry) (j : List ℕ)
    → Valid r
    → (lookup j (cleanup_stale_nodes now timeout r).1.nodes
        ≡ kept_by (λ e. leb (now - e.last_heartbeat) timeout) (lookup j r.nodes))
      × All (λ (k, f). now - f.last_heartbeat ≤ timeout) (cleanup_stale_nodes now timeout r).1.nodes
      × ((cleanup_stale_nodes now timeout r).0 + length (cleanup_stale_nodes now timeout r).1.nodes
          ≡ length r.nodes)
unfolding cleanup_stale_nodes
cleanup_stale_nodes-lookup now timeout r j valid =
    let t : Slot → Bool = λ (k, f). not (ltb timeout (now - f.last_heartbeat)) in
    (
      lookup-retain t j r.nodes valid.separate ∙ same_test (lookup j r.nodes),
      All-mono (λ (k, f) kept. stale_or_not timeout (now - f.last_heartbeat) kept) _
          (retain-All t r.nodes),
      omega (arith, length-retain t r.nodes),
    )
  where
    same_test :
        (o : Option NodeEntry)
        → kept_by (λ f. not (ltb timeout (now - f.last_heartbeat))) o
          ≡ kept_by (λ e. leb (now - e.last_heartbeat) timeout) o
    same_test none = refl
    same_test (some e) = ground arith
