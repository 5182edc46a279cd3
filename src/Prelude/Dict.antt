-- ===== src/Prelude/Dict.antt =====
-- A `HashMap` or a `HashSet` with numbers for keys, as an association list.
use Prim.Native.Nat.{ℕ}
use mathlib.Core.Path.{◌≡◌, sym, subst}
use mathlib.Core.Logic.{inl, inr}
use mathlib.Core.List.{List, [], ◌∷◌}
use mathlib.Core.Option.{Option, none, some, some-injective, some-ne-none}
use native.Mathlib.Omega.{arith}
use nopanic.Prelude.Tests.{◌==◌, ==_iff, Bool-cases, if◌then◌else◌}
use nopanic.Prelude.Select.{All}

module _ {ℓ} {V : Type ℓ} where
  unfoldable pub find : ℕ → List (ℕ × V) → Option V
  find k [] = none
  find k ((j, v) ∷ m) = if j == k then some v else find k m

  unfoldable pub remove : ℕ → List (ℕ × V) → List (ℕ × V)
  remove key [] = []
  remove key ((k, v) ∷ rest) = if k == key then remove key rest else (k, v) ∷ remove key rest

  -- The new entry stands first; an older one with its key is dropped.
  unfoldable pub insert : ℕ → V → List (ℕ × V) → List (ℕ × V)
  insert key v entries = (key, v) ∷ remove key entries

  pub find-remove :
      (gone key : ℕ) (entries : List (ℕ × V))
      → find key (remove gone entries) ≡ (if gone == key then none else find key entries)
  unfolding find remove
  find-remove gone key [] = ground arith
  find-remove gone key ((k, v) ∷ rest) = ground (arith, find-remove gone key rest)

  pub find-insert :
      (set key : ℕ) (v : V) (entries : List (ℕ × V))
      → find key (insert set v entries) ≡ (if set == key then some v else find key entries)
  unfolding find insert
  find-insert set key v entries = ground (arith, find-remove set key entries)

  module _ {κ} (P : ℕ × V → Type κ) where
    pub All-remove :
        (gone : ℕ) (entries : List (ℕ × V)) → All P entries → All P (remove gone entries)
    unfolding remove
    All-remove gone [] _ = tt
    All-remove gone ((k, v) ∷ rest) (p, ps) = elim (Bool-cases (k == gone)) [
      | inl e ↦ rw e (All-remove gone rest ps)
      | inr e ↦ rw e (p, All-remove gone rest ps)
    ]

    pub All-insert :
        (key : ℕ) (v : V) (entries : List (ℕ × V))
        → P (key, v)
        → All P entries
        → All P (insert key v entries)
    unfolding insert
    All-insert key v entries p ps = (p, All-remove key entries ps)

    pub All-find :
        (key : ℕ) (entries : List (ℕ × V)) (v : V)
        → find key entries ≡ some v
        → All P entries
        → P (key, v)
    unfolding find
    All-find key [] v found _ = absurd (some-ne-none _ (sym found))
    All-find key ((k, w) ∷ rest) v found (p, ps) = elim (Bool-cases (k == key)) [
      | inl e ↦
          let same : k ≡ key = (==_iff k key).0 e in
          let value : w ≡ v =
            some-injective _ _
              (subst (λ t. (if t then some w else find key rest) ≡ some v) e found) in
          subst (λ j. P (j, v)) same (subst (λ u. P (k, u)) value p)
      | inr e ↦
          All-find key rest v (subst (λ t. (if t then some w else find key rest) ≡ some v) e found)
            ps
    ]
