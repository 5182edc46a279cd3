-- ===== src/Client/Pool/Monitor/Sweeps.antt =====
-- What a round of the monitor leaves in the pool.
use nopanic.Prelude.{
  ℕ, ◌+◌, ◌≡◌, ◌⊎◌, refl, sym, subst, List, [], ◌∷◌, map, retain, Bool, true, false, ◌||◌, ok,
  remove, contains, leb, ◌==◌, ==_iff, if◌then◌else◌, Bool-cases, inl, inr, arith, All, All-mono,
  All-and, All-remove, length, Result-cases, All-insert,
}
use nopanic.Protocol.Wire.{Reader}
use nopanic.Crypto.Library.{Crypto}
use nopanic.Client.Circuit.{Circuit, ready}
use nopanic.Client.Pool.{
  CircuitPool, Builds, allocate_circuit_id, build_circuit, replace_circuit, is_abandoned, failures,
  expire_aged_circuits,
}
use nopanic.Client.Pool.Monitor.{
  is_idle_dirty, is_failed, remove_all, clean_up_dirty, replace_closed, replace_all, monitor_round,
  build_replacements,
}

abbrev listed : ℕ → List ℕ → Bool
listed id ids = contains ◌==◌ id ids

module _ {ℓ} {V : Type ℓ} where
  remove-ne : (gone : ℕ) (m : List (ℕ × V)) → All (λ s. (gone == s.0) ≡ false) (remove gone m)
  unfolding remove
  remove-ne gone [] = tt
  remove-ne gone ((k, v) ∷ m) = elim (Bool-cases (k == gone)) [
    | inl e ↦ rw e (remove-ne gone m)
    | inr e ↦ rw e (ground (arith, e), remove-ne gone m)
  ]

  -- Those that are wanted, or have an id of the list: after the id at its head is gone.
  remove-All_or {κ} :
      (Q : ℕ × V → Type κ) (id : ℕ) (ids : List ℕ) (m : List (ℕ × V))
      → All (λ s. Q s ⊎ (listed s.0 (id ∷ ids) ≡ true)) m
      → All (λ s. Q s ⊎ (listed s.0 ids ≡ true)) (remove id m)
  unfolding contains
  remove-All_or Q id ids m some_of =
      All-mono
        (λ s (ne, either). elim either [
          | inl q ↦ inl q
          | inr h ↦ inr (subst (λ t. (t || listed s.0 ids) ≡ true) ne h)
        ])
        (remove id m) (All-and _ _ (remove id m) (remove-ne id m) (All-remove _ id m some_of))

  none_listed {κ} :
      (Q : ℕ × V → Type κ) (m : List (ℕ × V)) → All (λ s. Q s ⊎ (listed s.0 [] ≡ true)) m → All Q m
  unfolding contains
  none_listed Q m some_of =
      All-mono (λ s either. elim either [ inl q ↦ q | inr h ↦ absurd (ground (arith, h)) ]) m
        some_of

  abbrev keys : List (ℕ × V) → List ℕ
  keys m = map (λ (id, v). id) m

  -- Each entry fails a test, or has its id among those of the entries that pass it.
  listed-retain :
      (t : ℕ × V → Bool) (m : List (ℕ × V))
      → All (λ s. (t s ≡ false) ⊎ (listed s.0 (keys (retain t m)) ≡ true)) m
  unfolding retain contains
  listed-retain t [] = tt
  listed-retain t ((k, v) ∷ m) = elim (Bool-cases (t (k, v))) [
    | inl e ↦ subst Row (sym e) (
      inr (ground arith),
      All-mono (λ s either. elim either [ inl f ↦ inl f | inr h ↦ inr (later (k == s.0) _ h) ]) m
          (listed-retain t m),
    )
    | inr e ↦ subst Row (sym e) (inl refl, listed-retain t m)
  ]
    where
      Row : Bool → Type 0
      Row b =
          ((b ≡ false) ⊎ (listed k (keys (if b then (k, v) ∷ retain t m else retain t m)) ≡ true))
          × All
              (λ s.
                (t s ≡ false)
                ⊎ (listed s.0 (keys (if b then (k, v) ∷ retain t m else retain t m)) ≡ true))
              m

      later : (b c : Bool) → c ≡ true → (b || c) ≡ true
      later true c h = refl
      later false c h = h

module _ (lib : Crypto) where
  -- A closed circuit stays in the pool only in a slot that is given up.
  abbrev Done : CircuitPool lib → ℕ × Circuit lib → Type 0
  Done p s = (is_failed lib s ≡ false) ⊎ (is_abandoned lib p s.0 ≡ true)

  abbrev pub Swept : CircuitPool lib → Type 0
  Swept p = All (λ s. (is_idle_dirty lib s ≡ false) × Done p s) p.circuits

  remove_all-All :
      (Q : ℕ × Circuit lib → Type 0) (ids : List ℕ) (m : List (ℕ × Circuit lib))
      → All (λ s. Q s ⊎ (listed s.0 ids ≡ true)) m
      → All Q (remove_all lib ids m)
  unfolding remove_all
  remove_all-All Q [] m some_of = none_listed Q m some_of
  remove_all-All Q (id ∷ ids) m some_of =
      remove_all-All Q ids (remove id m) (remove-All_or Q id ids m some_of)

  clean_up_dirty-All :
      (p : CircuitPool lib) → All (λ s. is_idle_dirty lib s ≡ false) (clean_up_dirty lib p).circuits
  unfolding clean_up_dirty
  clean_up_dirty-All p =
      remove_all-All (λ s. is_idle_dirty lib s ≡ false) _ p.circuits
        (listed-retain (is_idle_dirty lib) p.circuits)

  -- No entry is dirty and idle, and a closed one is of a slot that is given up or of the list.
  abbrev Rows : CircuitPool lib → List ℕ → List (ℕ × Circuit lib) → Type 0
  Rows p ids m =
      All (λ s. is_idle_dirty lib s ≡ false) m × All (λ s. Done p s ⊎ (listed s.0 ids ≡ true)) m

  listed_later : (id k : ℕ) (slots : List ℕ) → listed k slots ≡ true → listed k (id ∷ slots) ≡ true
  unfolding contains
  listed_later id k slots h = ground (arith, h)

  abbrev GivenUpOn : CircuitPool lib → CircuitPool lib → Type 0
  GivenUpOn p q = (k : ℕ) → is_abandoned lib p k ≡ true → is_abandoned lib q k ≡ true

  removed-Rows :
      (p q : CircuitPool lib) (id : ℕ) (ids : List ℕ) (m : List (ℕ × Circuit lib))
      → GivenUpOn p q
      → Rows p (id ∷ ids) m
      → Rows q ids (remove id m)
  removed-Rows p q id ids m on (idle, left) = (
    All-remove _ id m idle,
    remove-All_or (Done q) id ids m (
        All-mono
          (λ s either. elim either [
            | inl done ↦ inl (elim done [ inl o ↦ inl o | inr g ↦ inr (on s.0 g) ])
            | inr h ↦ inr h
          ])
          m left),
  )

  skipped-Rows :
      (p : CircuitPool lib) (id : ℕ) (ids : List ℕ) (m : List (ℕ × Circuit lib))
      → is_abandoned lib p id ≡ true
      → Rows p (id ∷ ids) m
      → Rows p ids m
  unfolding contains
  skipped-Rows p id ids m given_up (idle, left) = (
    idle,
    All-mono
        (λ s either. elim either [
          | inl done ↦ inl done
          | inr h ↦ elim (Bool-cases (id == s.0)) [
            | inl e ↦
                inl (inr (subst (λ k. is_abandoned lib p k ≡ true) ((==_iff id s.0).0 e) given_up))
            | inr e ↦ inr (subst (λ t. (t || listed s.0 ids) ≡ true) e h)
          ]
        ])
        m left,
  )

  module _ (builds : Builds lib) (now : ℕ)
      (builds_ready : (id hops : ℕ) (c : Circuit lib) (reader : Reader)
        → builds id hops ≡ ok (c, reader)
        → c.state ≡ ready) where
    replaced-Rows :
        (id : ℕ) (ids : List ℕ) (check_interval : ℕ) (p : CircuitPool lib)
        → Rows p (id ∷ ids) p.circuits
        → (let q = (replace_closed lib builds now check_interval id p).1 in Rows q ids q.circuits)
    unfolding replace_closed replace_circuit build_circuit allocate_circuit_id is_abandoned
    replaced-Rows id ids check_interval p rows = elim (Bool-cases (is_abandoned lib p id)) [
      | inl given_up ↦
          rw (replace_closed, given_up) (skipped-Rows p id ids p.circuits given_up rows)
      | inr trying ↦ elim (Result-cases (builds p.next_circuit_id p.hop_count)) [
        | inl ((c, reader), e) ↦
            let is_ready = builds_ready _ _ c reader e in
            let (idle, left) = removed-Rows p p id ids p.circuits (λ k h. h) rows in
            rw (replace_closed, trying, e)
              (
                All-insert _ p.next_circuit_id c (remove id p.circuits) (rw is_ready refl) idle,
                All-insert _ p.next_circuit_id c (remove id p.circuits)
                    (inl (inl (rw is_ready refl))) left,
              )
        | inr (_, e) ↦ elim (Bool-cases (leb p.max_rebuild_attempts (failures lib p id + 1))) [
          | inl q ↦
              rw (replace_closed, trying, e, q)
                (removed-Rows p (record p { abandoned_slots = id ∷ p.abandoned_slots }) id ids
                  p.circuits (λ k. listed_later id k p.abandoned_slots) rows)
          | inr q ↦
              rw (replace_closed, trying, e, q) (removed-Rows p p id ids p.circuits (λ k h. h) rows)
        ]
      ]
    ]

    replace_all-Swept :
        (ids : List ℕ) (check_interval : ℕ) (p : CircuitPool lib)
        → Rows p ids p.circuits
        → Swept (replace_all lib builds now check_interval ids p).1
    unfolding replace_all
    replace_all-Swept [] check_interval p (idle, left) =
        All-and _ _ p.circuits idle (none_listed (Done p) p.circuits left)
    replace_all-Swept (id ∷ ids) check_interval p rows =
        replace_all-Swept ids check_interval _ (replaced-Rows id ids check_interval p rows)

    -- Where the circuits that are built are ready, a round of the monitor leaves no dirty circuit
    -- without streams in the pool, and a closed one only in a slot that is given up.
    pub monitor_round-Swept :
        (check_interval : ℕ) (p : CircuitPool lib)
        → Swept (monitor_round lib builds now check_interval p).1
    unfolding monitor_round
    monitor_round-Swept check_interval p =
        let (expired, aged) = expire_aged_circuits lib now p in
        replace_all-Swept _ check_interval _ (
          clean_up_dirty-All (build_replacements lib builds now (length expired) aged).1,
          All-mono (λ s either. elim either [ inl o ↦ inl (inl o) | inr h ↦ inr h ]) _
              (listed-retain (is_failed lib) _),
        )
