-- ===== src/Discovery/Path/Weights.antt =====
-- What `select_weighted_index` chooses.
use nopanic.Prelude.{
  ℕ, zero, suc, ◌+◌, ◌-◌, ◌≤◌, ◌<◌, List, [], ◌∷◌, Result, ok, length, take, ltb, ◌==◌,
  if◌then◌else◌, ◌≡◌, refl, ap, ◌∙◌, arith, Bool-cases, inl, inr, ltb→lt, ltb_false→le,
}
use nopanic.Discovery.{NodeDescriptor}
use nopanic.Discovery.Registry.{RegistryError}
use nopanic.Discovery.Path.{total_bandwidth, scan, select_weighted_index}

-- The sum of the bandwidths, as a number of any size.
abbrev pub bandwidths : List NodeDescriptor → ℕ
bandwidths [] = 0
bandwidths (n ∷ ns) = n.bandwidth + bandwidths ns

total_bandwidth_lem :
    (nodes : List NodeDescriptor)
    → bandwidths nodes < 18446744073709551616
    → total_bandwidth nodes ≡ bandwidths nodes
unfolding total_bandwidth
total_bandwidth_lem [] small = refl
total_bandwidth_lem (n ∷ ns) small = omega (arith, total_bandwidth_lem ns (omega arith))

-- The weight falls on the `j`th of the nodes.
abbrev pub FallsOn : ℕ → List NodeDescriptor → ℕ → Type 0
FallsOn weight nodes j =
    (bandwidths (take j nodes) ≤ weight) × (weight < bandwidths (take (suc j) nodes))

scan-FallsOn :
    (last i weight : ℕ) (nodes : List NodeDescriptor)
    → weight < bandwidths nodes
    → (j : ℕ) × (scan last i weight nodes ≡ i + j) × FallsOn weight nodes j
unfolding scan
scan-FallsOn last i weight [] lt = absurd (omega arith)
scan-FallsOn last i weight (n ∷ ns) lt = elim (Bool-cases (ltb weight n.bandwidth)) [
  | inl here ↦
      (zero, rw here (omega arith), (omega arith, omega (arith, ltb→lt weight n.bandwidth here)))
  | inr later ↦
      let past = ltb_false→le n.bandwidth weight later in
      let (j, eq, (lower, upper)) =
        scan-FallsOn last (suc i) (weight - n.bandwidth) ns (omega arith) in
      (suc j, rw later (eq ∙ omega arith), (omega (arith, lower, past), omega (arith, upper, past)))
]

by_weight :
    (total d s : ℕ)
    → 0 < total
    → Path (Result RegistryError ℕ) (if total == 0 then ok d else ok s) (ok s)
by_weight total d s pos = ground arith

-- Each node is chosen for as many weights as its bandwidth: where the bandwidths sum to less than
-- 2^64 and not to 0, a weight below the sum chooses the node on which it falls when the bandwidths
-- are laid end to end.
pub select_weighted_index-FallsOn :
    (draw : ℕ → ℕ → ℕ) (k : ℕ) (nodes : List NodeDescriptor)
    → bandwidths nodes < 18446744073709551616
    → draw k (bandwidths nodes) < bandwidths nodes
    → (j : ℕ) × (select_weighted_index draw k nodes ≡ ok j)
      × FallsOn (draw k (bandwidths nodes)) nodes j
unfolding select_weighted_index
select_weighted_index-FallsOn draw k [] small lt = absurd (omega arith)
select_weighted_index-FallsOn draw k (n ∷ ns) small lt =
    let nodes : List NodeDescriptor = n ∷ ns in
    let (j, eq, on) = scan-FallsOn (length nodes - 1) 0 (draw k (bandwidths nodes)) nodes lt in
    (
      j,
      rw (total_bandwidth_lem nodes small)
          (by_weight (bandwidths nodes) _ _ (omega (arith, lt)) ∙ ap ok (eq ∙ omega arith)),
      on,
    )
