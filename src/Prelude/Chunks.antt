-- ===== src/Prelude/Chunks.antt =====
-- `slice::chunks(n)`.
use Prim.Native.Nat.{ℕ, zero, suc, ◌≤◌, ◌<◌}
use mathlib.Core.Path.{◌≡◌, refl, ap, ◌∙◌}
use mathlib.Core.List.{List, [], ◌∷◌, ◌++◌}
use native.Mathlib.Omega.{arith}
use nopanic.Prelude.Lists.{length, take, drop, length-take, length-drop, take-append-drop}
use nopanic.Prelude.Select.{All}

module _ {ℓ} {A : Type ℓ} where
  abbrev pub concat : List (List A) → List A
  concat [] = []
  concat (xs ∷ xss) = xs ++ concat xss

  -- With fuel for the pieces that are left; the length of the slice is always enough.
  unfoldable pub chunks_fuel : ℕ → ℕ → List A → List (List A)
  chunks_fuel zero n xs = []
  chunks_fuel (suc fuel) n [] = []
  chunks_fuel (suc fuel) n (x ∷ xs) = take n (x ∷ xs) ∷ chunks_fuel fuel n (drop n (x ∷ xs))

  unfoldable pub chunks : ℕ → List A → List (List A)
  unfolding chunks_fuel
  chunks n xs = chunks_fuel (length xs) n xs

  concat-chunks_fuel :
      (fuel n : ℕ) (xs : List A) → 0 < n → length xs ≤ fuel → concat (chunks_fuel fuel n xs) ≡ xs
  unfolding chunks_fuel
  concat-chunks_fuel zero n [] pos enough = refl
  concat-chunks_fuel zero n (x ∷ xs) pos enough = absurd (omega arith)
  concat-chunks_fuel (suc fuel) n [] pos enough = refl
  concat-chunks_fuel (suc fuel) n (x ∷ xs) pos enough =
      ap (◌++◌ (take n (x ∷ xs)))
        (concat-chunks_fuel fuel n (drop n (x ∷ xs)) pos (omega (arith, length-drop n (x ∷ xs))))
      ∙ take-append-drop n (x ∷ xs)

  pub concat-chunks : (n : ℕ) (xs : List A) → 0 < n → concat (chunks n xs) ≡ xs
  unfolding chunks
  concat-chunks n xs pos = concat-chunks_fuel (length xs) n xs pos (omega arith)

  chunks_fuel-le :
      (fuel n : ℕ) (xs : List A) → All (λ piece. length piece ≤ n) (chunks_fuel fuel n xs)
  unfolding chunks_fuel
  chunks_fuel-le zero n xs = tt
  chunks_fuel-le (suc fuel) n [] = tt
  chunks_fuel-le (suc fuel) n (x ∷ xs) =
      (omega (arith, length-take n (x ∷ xs)), chunks_fuel-le fuel n (drop n (x ∷ xs)))

  pub chunks-le : (n : ℕ) (xs : List A) → All (λ piece. length piece ≤ n) (chunks n xs)
  unfolding chunks
  chunks-le n xs = chunks_fuel-le (length xs) n xs
