-- ===== src/Discovery/Path/Diverse.antt =====
-- The paths of `get_random_path`: no address and no operator twice.
use nopanic.Prelude.{
  ℕ, suc, zero, List, [], ◌∷◌, none, some, Bool, true, false, not, ◌&&◌, ◌||◌, ok, ok_or, length,
  get_elem?, ltb, bytes_eq, retain, erase_at, contains, ◌≡◌, ◌≢◌, refl, sym, ap, subst, ◌∙◌, arith,
  bind-ok, ensure-ok, ok_or-ok, ok-inj, All, Pairwise, All-retain, All-erase_at, All-get_elem,
  retain-All, Pairwise-retain, Pairwise-erase_at, get_elem-erase_at, bytes_eq_refl, Bool-cases,
  Option-cases, inl, inr,
}
use nopanic.Discovery.{NodeDescriptor, ip_eq, ip_eq_refl, is_loopback}
use nopanic.Discovery.Registry.{too_few_apart, empty_list}
use nopanic.Discovery.Path.{
  Excluded, select_weighted_index, ip_exempt, ip_ok, op_ok, exclude, pick_middles,
}

contains_head {ℓ} :
    {A : Type ℓ} (eq : A → A → Bool) (a : A) (xs : List A)
    → eq a a ≡ true
    → contains eq a (a ∷ xs) ≡ true
unfolding contains
contains_head eq a xs e = ground (arith, e)

contains_tail {ℓ} :
    {A : Type ℓ} (eq : A → A → Bool) (a x : A) (xs : List A)
    → contains eq a xs ≡ true
    → contains eq a (x ∷ xs) ≡ true
unfolding contains
contains_tail eq a x xs e = elim (Bool-cases (eq x a)) [
  | inl q ↦ ground (arith, e, q)
  | inr q ↦ ground (arith, e, q)
]

both_false : (a b : Bool) → a ≡ false → b ≡ false → (a || b) ≡ false
both_false a b p q = rw (p, q) refl

refused : (a b c : Bool) → a ≡ false → b ≡ false → c ≡ true → ((a || b) || not c) ≡ true → ⊥
refused a b c p q r h = ground (arith, p, q, r, h)

not_both : (b : Bool) → not b ≡ true → b ≡ true → ⊥
not_both b h e = ground (arith, h, e)

and-true : (a b : Bool) → (a && b) ≡ true → (a ≡ true) × (b ≡ true)
and-true true true h = (refl, refl)
and-true true false h = absurd (ground arith)
and-true false b h = absurd (ground arith)

module _ (allow_same_ip : Bool) where
  -- Two nodes may stand in one path: unless all addresses are let through, they share none but a
  -- loopback one, and they do not name the same operator.
  abbrev pub Apart : NodeDescriptor → NodeDescriptor → Type 0
  Apart a b =
      (allow_same_ip ≡ false → is_loopback a.address.ip ≡ false → a.address.ip ≢ b.address.ip)
      × ((op : List ℕ) → a.operator_id ≡ some op → b.operator_id ≢ some op)

  pub Apart-symm : (a b : NodeDescriptor) → Apart a b → Apart b a
  Apart-symm a b (ips, ops) = (
    λ allow loop e. ips allow (ap is_loopback (sym e) ∙ loop) (sym e),
    λ op named e. ops op e named,
  )

  -- The node is among those that the exclusions stand for.
  abbrev pub Covered : Excluded → NodeDescriptor → Type 0
  Covered x n =
      (ip_exempt allow_same_ip n ≡ false → contains ip_eq n.address.ip x.ips ≡ true)
      × ((op : List ℕ) → n.operator_id ≡ some op → contains bytes_eq op x.ops ≡ true)

  pub exclude-Covered : (x : Excluded) (n : NodeDescriptor) → Covered (exclude allow_same_ip n x) n
  unfolding exclude
  exclude-Covered x n = (
    λ exempt. rw exempt (contains_head ip_eq n.address.ip x.ips (ip_eq_refl n.address.ip)),
    λ op named. rw named (contains_head bytes_eq op x.ops (bytes_eq_refl op)),
  )

  pub exclude_mono :
      (x : Excluded) (m n : NodeDescriptor) → Covered x n → Covered (exclude allow_same_ip m x) n
  unfolding exclude
  exclude_mono x m n (ips, ops) = (
    λ exempt. elim (Bool-cases (ip_exempt allow_same_ip m)) [
      | inl e ↦ rw e (ips exempt)
      | inr e ↦ rw e (contains_tail ip_eq n.address.ip m.address.ip x.ips (ips exempt))
    ],
    λ op named. elim (Option-cases m.operator_id) [
      | inl e ↦ rw e (ops op named)
      | inr (o, e) ↦ rw e (contains_tail bytes_eq op o x.ops (ops op named))
    ],
  )

  pub Apart-of_ok :
      (x : Excluded) (n m : NodeDescriptor)
      → Covered x n
      → (ip_ok allow_same_ip x m && op_ok allow_same_ip x m) ≡ true
      → Apart n m
  Apart-of_ok x n m (ips, ops) free = (
    λ allow loop same.
        let exempt = both_false _ _ allow loop in
        refused _ _ _ allow (ap is_loopback (sym same) ∙ loop)
          (ap (λ a. contains ip_eq a x.ips) (sym same) ∙ ips exempt) (and-true _ _ free).0,
    λ o named same.
        let allowed : not (contains bytes_eq o x.ops) ≡ true =
          subst (λ op. elim op [ none ↦ true | some op ↦ not (contains bytes_eq op x.ops) ] ≡ true)
            same (and-true _ _ free).1 in
        not_both _ allowed (ops o named),
  )

  -- What a slot of `pick_middles` does, where it gives a path.
  record Slot (draw : ℕ → ℕ → ℕ) (k slots : ℕ) (available : List NodeDescriptor) (x : Excluded)
      (path : List NodeDescriptor) : Type 0 where
    idx : ℕ
    node : NodeDescriptor
    rest : List NodeDescriptor
    found :
        get_elem? (retain (λ n. ip_ok allow_same_ip x n && op_ok allow_same_ip x n) available) idx
        ≡ some node
    later :
        pick_middles allow_same_ip draw
          (suc k)
          slots
          (erase_at idx
            (retain (λ n. ip_ok allow_same_ip x n && op_ok allow_same_ip x n) available))
          (exclude allow_same_ip node x)
        ≡ ok rest
    path_eq : path ≡ node ∷ rest

  pick_middles-Slot :
      (draw : ℕ → ℕ → ℕ) (k slots : ℕ) (available : List NodeDescriptor) (x : Excluded)
      (path : List NodeDescriptor)
      → pick_middles allow_same_ip draw k (suc slots) available x ≡ ok path
      → Slot draw k slots available x path
  unfolding pick_middles
  pick_middles-Slot draw k slots available x path h =
      let free = retain (λ n. ip_ok allow_same_ip x n && op_ok allow_same_ip x n) available in
      let (_, h1) = ensure-ok (not (ltb (length free) (suc slots))) too_few_apart _ path h in
      let (idx, _, h2) = bind-ok (select_weighted_index draw k free) _ path h1 in
      let (node, found, h3) = bind-ok (ok_or (get_elem? free idx) empty_list) _ path h2 in
      let (rest, later, h4) =
        bind-ok
          (pick_middles allow_same_ip draw (suc k) slots (erase_at idx free)
            (exclude allow_same_ip node x))
          _ path h3 in
      record {
        idx = idx;
        node = node;
        rest = rest;
        found = ok_or-ok (get_elem? free idx) empty_list node found;
        later = later;
        path_eq = sym (ok-inj h4);
      }

  pick_middles-nil :
      (draw : ℕ → ℕ → ℕ) (k : ℕ) (available : List NodeDescriptor) (x : Excluded)
      (path : List NodeDescriptor)
      → pick_middles allow_same_ip draw k zero available x ≡ ok path
      → path ≡ []
  unfolding pick_middles
  pick_middles-nil draw k available x path h = sym (ok-inj h)

  -- Middles are as many as asked for, apart from one another, and apart from all that is excluded.
  abbrev pub Middles : ℕ → Excluded → List NodeDescriptor → Type 0
  Middles slots x path =
      (length path ≡ slots)
      × Pairwise Apart path
      × ((n : NodeDescriptor) → Covered x n → All (Apart n) path)

  pub pick_middles-Middles :
      (draw : ℕ → ℕ → ℕ) (slots k : ℕ) (available : List NodeDescriptor) (x : Excluded)
      (path : List NodeDescriptor)
      → pick_middles allow_same_ip draw k slots available x ≡ ok path
      → Middles slots x path
  pick_middles-Middles draw zero k available x path h =
      subst (Middles zero x) (sym (pick_middles-nil draw k available x path h))
        (refl, tt, λ n _. tt)
  pick_middles-Middles draw (suc slots) k available x path h =
      let s = pick_middles-Slot draw k slots available x path h in
      let (count, apart, covered) =
        pick_middles-Middles draw slots (suc k) _ (exclude allow_same_ip s.node x) s.rest s.later in
      let ok_here =
        All-get_elem _ s.idx _ s.node s.found
          (retain-All (λ n. ip_ok allow_same_ip x n && op_ok allow_same_ip x n) available) in
      subst (Middles (suc slots) x) (sym s.path_eq) (
        ap suc count,
        (covered s.node (exclude-Covered x s.node), apart),
        λ n c. (Apart-of_ok x n s.node c ok_here, covered n (exclude_mono x s.node n c)),
      )

  -- They are taken from what was available, each at most once.
  pub pick_middles-All {κ} :
      (P : NodeDescriptor → Type κ) (draw : ℕ → ℕ → ℕ) (slots k : ℕ)
      (available : List NodeDescriptor) (x : Excluded) (path : List NodeDescriptor)
      → pick_middles allow_same_ip draw k slots available x ≡ ok path
      → All P available
      → All P path
  pick_middles-All P draw zero k available x path h ps =
      subst (All P) (sym (pick_middles-nil draw k available x path h)) tt
  pick_middles-All P draw (suc slots) k available x path h ps =
      let s = pick_middles-Slot draw k slots available x path h in
      let free = All-retain P _ available ps in
      subst (All P) (sym s.path_eq) (
        All-get_elem P s.idx _ s.node s.found free,
        pick_middles-All P draw slots (suc k) _ _ s.rest s.later (All-erase_at P s.idx _ free),
      )

  pub pick_middles-Pairwise {κ} :
      (R : NodeDescriptor → NodeDescriptor → Type κ)
      → ((a b : NodeDescriptor) → R a b → R b a)
      → (draw : ℕ → ℕ → ℕ) (slots k : ℕ) (available : List NodeDescriptor) (x : Excluded)
        (path : List NodeDescriptor)
      → pick_middles allow_same_ip draw k slots available x ≡ ok path
      → Pairwise R available
      → Pairwise R path
  pick_middles-Pairwise R symm draw zero k available x path h rs =
      subst (Pairwise R) (sym (pick_middles-nil draw k available x path h)) tt
  pick_middles-Pairwise R symm draw (suc slots) k available x path h rs =
      let s = pick_middles-Slot draw k slots available x path h in
      let free = Pairwise-retain R _ available rs in
      subst (Pairwise R) (sym s.path_eq) (
        pick_middles-All (R s.node) draw slots (suc k) _ _ s.rest s.later
            (get_elem-erase_at R symm s.idx _ s.node s.found free),
        pick_middles-Pairwise R symm draw slots (suc k) _ _ s.rest s.later
            (Pairwise-erase_at R s.idx _ free),
      )
