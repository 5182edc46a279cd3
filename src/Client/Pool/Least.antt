-- ===== src/Client/Pool/Least.antt =====
-- Which circuit `select_circuit` selects.
use nopanic.Prelude.{
  ℕ, ◌≤◌, List, [], ◌∷◌, Option, none, some, Bool, true, false, Result, ok, err, err-ne-ok, ok-inj,
  find, ltb, ltb→lt, ltb_false→le, ◌==◌, ==_iff, if◌then◌else◌, ◌≡◌, ◌≢◌, refl, sym, ap, subst, ◌∙◌,
  arith, Bool-cases, Option-cases, inl, inr, ◌⊎◌, All, Pairwise,
}
use mathlib.Core.Option.{some-injective}
use nopanic.Protocol.Wire.{Reader}
use nopanic.Crypto.Library.{Crypto}
use nopanic.Client.Circuit.{Circuit, active_stream_count}
use nopanic.Client.Pool.{
  BuildError, CircuitPool, Builds, is_ready_state, better, best_of, build_circuit, with_reader,
  select_circuit,
}

some-ne-none {ℓ} : {A : Type ℓ} {a : A} → Path (Option A) (some a) none → ⊥
some-ne-none = cc

differ : (j id : ℕ) → j ≢ id → (j == id) ≡ false
differ j id ne = ground (arith, ne)

if_later {ℓ} :
    {A : Type ℓ} (b : Bool) (c x : A) (o : Option A)
    → b ≡ false
    → (if b then some c else o) ≡ some x
    → o ≡ some x
if_later b c x o q h = ground (arith, q, h)

module _ (lib : Crypto) where
  -- No circuit that is ready has fewer streams than `n`.
  abbrev AtLeast : ℕ → ℕ × Circuit lib → Type 0
  AtLeast n (j, c) = (is_ready_state c.state ≡ false) ⊎ (n ≤ active_stream_count lib c)

  abbrev Ready : ℕ → ℕ → List (ℕ × Circuit lib) → Type 0
  Ready id n circuits =
      (c : Circuit lib) × (find id circuits ≡ some c)
      × (is_ready_state c.state ≡ true)
      × (active_stream_count lib c ≡ n)

  -- What the loop has at its end, from what it had: the least count, and the circuit it belongs to.
  abbrev Best : Option (ℕ × ℕ) → List (ℕ × Circuit lib) → ℕ → ℕ → Type 0
  Best none circuits id n = All (AtLeast n) circuits × Ready id n circuits
  Best (some (b, m)) circuits id n =
      All (AtLeast n) circuits × (n ≤ m) × (((b ≡ id) × (m ≡ n)) ⊎ Ready id n circuits)

  abbrev pub Unique : List (ℕ × Circuit lib) → Type 0
  Unique circuits = Pairwise (λ (i, _) (j, _). i ≢ j) circuits

  key_ne :
      (j id : ℕ) (m : List (ℕ × Circuit lib)) (x : Circuit lib)
      → find id m ≡ some x
      → All (λ (k, _). j ≢ k) m
      → j ≢ id
  unfolding find
  key_ne j id [] x h _ = absurd (ground (arith, h))
  key_ne j id ((k, c) ∷ m) x h (ne, nes) = elim (Bool-cases (k == id)) [
    | inl q ↦ λ e. ne (e ∙ sym ((==_iff k id).0 q))
    | inr q ↦ key_ne j id m x (if_later (k == id) c x (find id m) q h) nes
  ]

  module _ (j : ℕ) (c : Circuit lib) (rest : List (ℕ × Circuit lib)) where
    here :
        (id n : ℕ)
        → is_ready_state c.state ≡ true
        → j ≡ id
        → active_stream_count lib c ≡ n
        → Ready id n ((j, c) ∷ rest)
    unfolding find
    here id n q e count = (c, rw ((==_iff j id).1 e) refl, q, count)

    there : (id n : ℕ) → All (λ (k, _). j ≢ k) rest → Ready id n rest → Ready id n ((j, c) ∷ rest)
    unfolding find
    there id n ne (x, found, is_ready, count) =
        (x, rw (differ j id (key_ne j id rest x found ne)) found, is_ready, count)

  later :
      (j : ℕ) (c : Circuit lib) (rest : List (ℕ × Circuit lib)) (b m id n : ℕ)
      → All (λ (k, _). j ≢ k) rest
      → ((b ≡ id) × (m ≡ n)) ⊎ Ready id n rest
      → ((b ≡ id) × (m ≡ n)) ⊎ Ready id n ((j, c) ∷ rest)
  later j c rest b m id n ne (inl e) = inl e
  later j c rest b m id n ne (inr found) = inr (there j c rest id n ne found)

  best_of-Best :
      (best : Option (ℕ × ℕ)) (circuits : List (ℕ × Circuit lib)) (id n : ℕ)
      → Unique circuits
      → best_of lib best circuits ≡ some (id, n)
      → Best best circuits id n
  unfolding best_of
  best_of-Best none [] id n u h = absurd (ground (arith, h))
  best_of-Best (some (b, m)) [] id n u h =
      let e = some-injective _ _ h in
      (tt, omega (arith, ap (λ t. t.1) e), inl (ap (λ t. t.0) e, ap (λ t. t.1) e))
  best_of-Best none ((j, c) ∷ rest) id n (ne, u) h = elim (Bool-cases (is_ready_state c.state)) [
    | inl q ↦
        let now = some (j, active_stream_count lib c) in
        let step : better lib none j c ≡ now = rw q refl in
        let (all, le, origin) =
          best_of-Best now rest id n u (subst (λ o. best_of lib o rest ≡ some (id, n)) step h) in
        (
          (inr le, all),
          elim origin [
            | inl (e, count) ↦ here j c rest id n q e count
            | inr found ↦ there j c rest id n ne found
          ],
        )
    | inr q ↦
        let step : better lib none j c ≡ none = rw q refl in
        let (all, found) =
          best_of-Best none rest id n u (subst (λ o. best_of lib o rest ≡ some (id, n)) step h) in
        ((inl q, all), there j c rest id n ne found)
  ]
  best_of-Best (some (b, m)) ((j, c) ∷ rest) id n (ne, u) h =
      let count = active_stream_count lib c in
      let same : better lib (some (b, m)) j c ≡ some (b, m) → Best (some (b, m)) rest id n = λ step.
        best_of-Best (some (b, m)) rest id n u
          (subst (λ o. best_of lib o rest ≡ some (id, n)) step h) in
      elim (Bool-cases (is_ready_state c.state)) [
        | inr q ↦
            let (all, le, origin) = same (rw q refl) in
            ((inl q, all), le, later j c rest b m id n ne origin)
        | inl q ↦ elim (Bool-cases (ltb count m)) [
          | inl less ↦
              let step : better lib (some (b, m)) j c ≡ some (j, count) = rw (q, less) refl in
              let (all, le, origin) =
                best_of-Best (some (j, count)) rest id n u
                  (subst (λ o. best_of lib o rest ≡ some (id, n)) step h) in
              (
                (inr le, all),
                omega (arith, le, ltb→lt count m less),
                elim origin [
                  | inl (e, eq) ↦ inr (here j c rest id n q e eq)
                  | inr found ↦ inr (there j c rest id n ne found)
                ],
              )
          | inr more ↦
              let (all, le, origin) = same (rw (q, more) refl) in
              (
                (inr (omega (arith, le, ltb_false→le m count more)), all),
                le,
                later j c rest b m id n ne origin,
              )
        ]
      ]

  select_circuit-best :
      (builds : Builds lib) (now : ℕ) (p : CircuitPool lib) (id n : ℕ) (c : Circuit lib)
      → best_of lib none p.circuits ≡ some (id, n)
      → find id p.circuits ≡ some c
      → select_circuit lib builds now p ≡ (ok (id, none), p)
  unfolding select_circuit
  select_circuit-best builds now p id n c h found = rw (select_circuit, h, found) refl

  with_reader-ne :
      (built : Result BuildError (ℕ × Reader)) (id : ℕ) → with_reader lib built ≢ ok (id, none)
  with_reader-ne (err e) id h = absurd (err-ne-ok h)
  with_reader-ne (ok (i, reader)) id h = some-ne-none (ap (λ t. t.1) (ok-inj h))

  select_circuit-built :
      (builds : Builds lib) (now : ℕ) (p : CircuitPool lib) (id : ℕ)
      → best_of lib none p.circuits ≡ none
      → (select_circuit lib builds now p).0 ≢ ok (id, none)
  unfolding select_circuit
  select_circuit-built builds now p id h =
      rw (select_circuit, h) (with_reader-ne (build_circuit lib builds now p).0 id)

  -- The circuit of the id is in the pool and ready, and no ready circuit has fewer streams.
  abbrev pub LeastLoaded : ℕ → CircuitPool lib → Type 0
  LeastLoaded id p =
      (c : Circuit lib) × (find id p.circuits ≡ some c)
      × (is_ready_state c.state ≡ true)
      × All (AtLeast (active_stream_count lib c)) p.circuits

  -- When the ids of the pool are distinct and select_circuit answers with a circuit that it did not
  -- build for this call, then that circuit is in the pool and ready, no ready circuit of the pool has
  -- fewer streams, and the pool is left as it was.
  pub select_circuit-LeastLoaded :
      (builds : Builds lib) (now : ℕ) (p : CircuitPool lib) (id : ℕ)
      → Unique p.circuits
      → (select_circuit lib builds now p).0 ≡ ok (id, none)
      → LeastLoaded id p × ((select_circuit lib builds now p).1 ≡ p)
  select_circuit-LeastLoaded builds now p id u h =
      elim (Option-cases (best_of lib none p.circuits)) [
        | inl e ↦ absurd (select_circuit-built builds now p id e h)
        | inr ((i, n), e) ↦
            let (all, (c, found, is_ready, count)) = best_of-Best none p.circuits i n u e in
            let selected = select_circuit-best builds now p i n c e found in
            let same : i ≡ id = ap (λ t. t.0) (ok-inj (sym (ap (λ t. t.0) selected) ∙ h)) in
            (
              (
                c,
                ap (λ k. find k p.circuits) (sym same) ∙ found,
                is_ready,
                subst (λ k. All (AtLeast k) p.circuits) (sym count) all,
              ),
              ap (λ t. t.1) selected,
            )
      ]
