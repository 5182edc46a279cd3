-- ===== src/Client/Pool/Replace.antt =====
-- What `replace_circuit` leaves of the slot of a failed circuit.
use nopanic.Prelude.{
  ℕ, ◌+◌, List, none, some, true, err, find, insert, remove, find-insert, find-remove, contains,
  leb, ◌==◌, ◌≡◌, ◌≢◌, refl, ap, arith, Bool-cases, inl, inr, ◌||◌,
}
use nopanic.Crypto.Library.{Crypto}
use nopanic.Client.Pool.{
  BuildError, CircuitPool, Builds, allocate_circuit_id, build_circuit, failures, is_abandoned,
  replace_circuit,
}

found_self : (k v : ℕ) (m : List (ℕ × ℕ)) → find k (insert k v m) ≡ some v
found_self k v m = ground (arith, find-insert k k v m)

module _ (lib : Crypto) where
  -- The pool after a replacement that failed: the failed circuit is gone, any other is as before,
  -- its failures are counted once more, and its slot is given up if they reach the limit.
  abbrev pub Failed : ℕ → ℕ → CircuitPool lib → CircuitPool lib → Type 0
  Failed failed_id other p p' =
      (find failed_id p'.circuits ≡ none)
      × (find other p'.circuits ≡ find other p.circuits)
      × (failures lib p' failed_id ≡ failures lib p failed_id + 1)
      × (is_abandoned lib p' failed_id ≡ (
          leb p.max_rebuild_attempts (failures lib p failed_id + 1)
          || is_abandoned lib p failed_id))

  -- When the replacement of a circuit cannot be built, the failed circuit is no longer in the pool
  -- while every other one is as before; the failures of its slot are one more, and the slot is
  -- abandoned if they reach the limit, or if it was before.
  pub replace_circuit-Failed :
      (builds : Builds lib) (now failed_id other : ℕ) (p : CircuitPool lib) (e : BuildError)
      → builds p.next_circuit_id p.hop_count ≡ err e
      → other ≢ failed_id
      → ((replace_circuit lib builds now failed_id p).0 ≡ err e)
        × Failed failed_id other p (replace_circuit lib builds now failed_id p).1
  unfolding replace_circuit build_circuit allocate_circuit_id is_abandoned contains
  replace_circuit-Failed builds now failed_id other p e fails ne =
      let gone : find failed_id (remove failed_id p.circuits) ≡ none =
        ground (arith, find-remove failed_id failed_id p.circuits) in
      let kept : find other (remove failed_id p.circuits) ≡ find other p.circuits =
        ground (arith, find-remove failed_id other p.circuits) in
      let count = failures lib p failed_id + 1 in
      let counted =
        ap (λ o. elim o [ none ↦ 0 | some n ↦ n ])
          (found_self failed_id count p.rebuild_failure_counts) in
      let head_found : (failed_id == failed_id || contains ◌==◌ failed_id p.abandoned_slots)
          ≡ true =
        ground arith in
      elim (Bool-cases (leb p.max_rebuild_attempts (failures lib p failed_id + 1))) [
        | inl q ↦ rw (fails, q) (refl, (gone, kept, counted, head_found))
        | inr q ↦ rw (fails, q) (refl, (gone, kept, counted, refl))
      ]
