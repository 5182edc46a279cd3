-- ===== src/Discovery/Registry/Valid.antt =====
-- What every operation of the registry keeps: one entry for an id, and one for an address.
use nopanic.Prelude.{
  ℕ, List, [], ◌∷◌, Option, none, some, Bool, true, false, ◌≡◌, ◌≢◌, refl, sym, ap, ◌∙◌, arith,
  Bool-cases, inl, inr, bytes_eq, bytes_eq→eq, bytes_eq_refl, All, Pairwise, All-mono, All-and,
  if◌then◌else◌,
}
use nopanic.Discovery.{NodeDescriptor, SocketAddr, ip_eq_refl}
use nopanic.Discovery.Registry.{NodeEntry, NodeRegistry, address_eq, lookup, modify, keeps, renewed}

abbrev pub Slot : Type 0
Slot = List ℕ × NodeEntry

-- Two entries have different ids and different addresses.
abbrev pub Separate : Slot → Slot → Type 0
Separate (k, e) (j, f) = (k ≢ j) × (e.descriptor.address ≢ f.descriptor.address)

-- An entry stands under the id of its descriptor.
abbrev pub Keyed : Slot → Type 0
Keyed (k, e) = e.descriptor.node_id ≡ k

pub record Valid (r : NodeRegistry) : Type 0 where
  pub separate : Pairwise Separate r.nodes
  pub keyed : All Keyed r.nodes

pub address_eq_refl : (a : SocketAddr) → address_eq a a ≡ true
address_eq_refl a = rw (ip_eq_refl a.ip) (ground arith)

pub no_both : (b : Bool) → b ≡ true → b ≡ false → ⊥
no_both b p q = ground (arith, p, q)

pub modify-All {κ} :
    (P : Slot → Type κ) (id : List ℕ) (f : NodeEntry → NodeEntry)
    → ((k : List ℕ) (e : NodeEntry) → k ≡ id → P (k, e) → P (k, f e))
    → (m : List Slot) → All P m
    → All P (modify id f m)
unfolding modify
modify-All P id f step [] _ = tt
modify-All P id f step ((k, e) ∷ m) (p, ps) = elim (Bool-cases (bytes_eq k id)) [
  | inl q ↦ rw q (step k e (bytes_eq→eq k id q) p, ps)
  | inr q ↦ rw q (p, modify-All P id f step m ps)
]

pub bytes_ne : (a b : List ℕ) → bytes_eq a b ≡ false → a ≢ b
bytes_ne a b h e = no_both _ (sym (ap (bytes_eq a) e) ∙ bytes_eq_refl a) h

found_none :
    (b : Bool) (e : NodeEntry) (o : Option NodeEntry)
    → b ≡ true
    → (if b then some e else o) ≡ none
    → ⊥
found_none b e o q h = ground (arith, q, h)

not_here :
    (b : Bool) (e : NodeEntry) (o : Option NodeEntry)
    → b ≡ false
    → (if b then some e else o) ≡ none
    → o ≡ none
not_here b e o q h = ground (arith, q, h)

pub keeps-ne :
    (d : NodeDescriptor) (k : List ℕ) (e : NodeEntry)
    → keeps d (k, e) ≡ true
    → k ≢ d.node_id
    → d.address ≢ e.descriptor.address
keeps-ne d k e kept ne same = elim (Bool-cases (bytes_eq k d.node_id)) [
  | inl q ↦ ne (bytes_eq→eq k d.node_id q)
  | inr q ↦
      no_both _ kept
        (rw (q, sym (ap (λ a. address_eq a d.address) same) ∙ address_eq_refl d.address) refl)
]

-- The entry of the id is renewed: its address may be new, so the others are kept only where they
-- have another one.
pub modify-Separate :
    (d : NodeDescriptor) (now : ℕ) (m : List Slot)
    → All (λ s. keeps d s ≡ true) m
    → Pairwise Separate m
    → Pairwise Separate (modify d.node_id (renewed d now) m)
unfolding modify
modify-Separate d now [] _ _ = tt
modify-Separate d now ((k, e) ∷ m) (kept, keeps_m) (r, rs) =
    elim (Bool-cases (bytes_eq k d.node_id)) [
      | inl q ↦
          let is_id = bytes_eq→eq k d.node_id q in
          let others =
            All-mono
              (λ (j, f) (sep, kept_j). (sep.0, keeps-ne d j f kept_j (λ e. sep.0 (is_id ∙ sym e))))
              m (All-and _ _ m r keeps_m) in
          rw q (others, rs)
      | inr q ↦
          let not_id = bytes_ne k d.node_id q in
          let apart = keeps-ne d k e kept not_id in
          let others =
            modify-All (Separate (k, e)) d.node_id (renewed d now)
              (λ j f is_id sep. (sep.0, λ same. apart (sym same))) m r in
          rw q (others, modify-Separate d now m keeps_m rs)
    ]

-- A change that leaves the descriptors alone.
pub modify-Separate_same :
    (id : List ℕ) (f : NodeEntry → NodeEntry)
    → ((e : NodeEntry) → (f e).descriptor ≡ e.descriptor)
    → (m : List Slot) → Pairwise Separate m
    → Pairwise Separate (modify id f m)
unfolding modify
modify-Separate_same id f same [] _ = tt
modify-Separate_same id f same ((k, e) ∷ m) (r, rs) = elim (Bool-cases (bytes_eq k id)) [
  | inl q ↦ rw q (
    All-mono (λ (j, g) (ne, apart). (ne, λ h. apart (ap (λ d. d.address) (sym (same e)) ∙ h))) m r,
    rs,
  )
  | inr q ↦ rw q (
    modify-All (Separate (k, e)) id f
        (λ j g _ (ne, apart). (ne, λ h. apart (h ∙ ap (λ d. d.address) (same g)))) m r,
    modify-Separate_same id f same m rs,
  )
]

pub lookup-none : (id : List ℕ) (m : List Slot) → lookup id m ≡ none → All (λ (k, e). k ≢ id) m
unfolding lookup
lookup-none id [] h = tt
lookup-none id ((k, e) ∷ m) h = elim (Bool-cases (bytes_eq k id)) [
  | inl q ↦ absurd (found_none (bytes_eq k id) e (lookup id m) q h)
  | inr q ↦ (bytes_ne k id q, lookup-none id m (not_here (bytes_eq k id) e (lookup id m) q h))
]
