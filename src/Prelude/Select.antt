-- ===== src/Prelude/Select.antt =====
-- Vectors from which elements are kept or taken by a Boolean test, and properties of all elements or
-- of all pairs.
use Prim.Native.Nat.{ℕ, zero, suc, ◌≤◌, ◌<◌}
use mathlib.Core.Path.{◌≡◌, refl, ap, subst}
use mathlib.Core.Bool.{Bool, true, false, ◌||◌}
use mathlib.Core.Logic.{inl, inr, ◌≢◌}
use mathlib.Core.List.{List, [], ◌∷◌, ◌++◌, map}
use mathlib.Core.List.{Mem, mem-cons_self, mem-cons_of_mem}
use mathlib.Core.Option.{some, some-injective}
use native.Mathlib.Omega.{arith}
use nopanic.Prelude.Tests.{if◌then◌else◌, Bool-cases}
use nopanic.Prelude.Lists.{length, get_elem?}

module _ {ℓ} {A : Type ℓ} where
  -- `Vec::retain`, and `filter` of an iterator.
  unfoldable pub retain : (A → Bool) → List A → List A
  retain keep [] = []
  retain keep (x ∷ xs) = if keep x then x ∷ retain keep xs else retain keep xs

  -- `Vec::remove`: the vector without the element at an index.
  unfoldable pub erase_at : ℕ → List A → List A
  erase_at i [] = []
  erase_at zero (x ∷ xs) = xs
  erase_at (suc i) (x ∷ xs) = x ∷ erase_at i xs

  -- `contains`, with the equality of the elements.
  unfoldable pub contains : (A → A → Bool) → A → List A → Bool
  contains eq a [] = false
  contains eq a (x ∷ xs) = eq x a || contains eq a xs

  abbrev pub All {κ} : (A → Type κ) → List A → Type κ
  All P [] = Unit
  All P (x ∷ xs) = P x × All P xs

  abbrev pub Pairwise {κ} : (A → A → Type κ) → List A → Type κ
  Pairwise R [] = Unit
  Pairwise R (x ∷ xs) = All (R x) xs × Pairwise R xs

module _ {ℓ} {A : Type ℓ} where
  pub All-mono {κ κ'} :
      {P : A → Type κ} {Q : A → Type κ'}
      → ((a : A) → P a → Q a)
      → (xs : List A) → All P xs
      → All Q xs
  All-mono f [] _ = tt
  All-mono f (x ∷ xs) (p, ps) = (f x p, All-mono f xs ps)

  pub All-Mem : (xs : List A) → All (λ a. Mem a xs) xs
  All-Mem [] = tt
  All-Mem (x ∷ xs) = (mem-cons_self, All-mono (λ a m. mem-cons_of_mem x m) xs (All-Mem xs))

  pub retain-All : (t : A → Bool) (xs : List A) → All (λ x. t x ≡ true) (retain t xs)
  unfolding retain
  retain-All t [] = tt
  retain-All t (x ∷ xs) = elim (Bool-cases (t x)) [
    | inl e ↦ rw e (e, retain-All t xs)
    | inr e ↦ rw e (retain-All t xs)
  ]

  pub length-retain : (t : A → Bool) (xs : List A) → length (retain t xs) ≤ length xs
  unfolding retain
  length-retain t [] = omega arith
  length-retain t (x ∷ xs) = elim (Bool-cases (t x)) [
    | inl e ↦ rw e (omega (arith, length-retain t xs))
    | inr e ↦ rw e (omega (arith, length-retain t xs))
  ]

  pub retain_id : (t : A → Bool) (xs : List A) → All (λ x. t x ≡ true) xs → retain t xs ≡ xs
  unfolding retain
  retain_id t [] _ = refl
  retain_id t (x ∷ xs) (e, es) = rw e (ap (◌∷◌ x) (retain_id t xs es))

  module _ {κ} (P : A → Type κ) where
    pub All-retain : (t : A → Bool) (xs : List A) → All P xs → All P (retain t xs)
    unfolding retain
    All-retain t [] _ = tt
    All-retain t (x ∷ xs) (p, ps) = elim (Bool-cases (t x)) [
      | inl e ↦ rw e (p, All-retain t xs ps)
      | inr e ↦ rw e (All-retain t xs ps)
    ]

    pub All-erase_at : (i : ℕ) (xs : List A) → All P xs → All P (erase_at i xs)
    unfolding erase_at
    All-erase_at i [] _ = tt
    All-erase_at zero (x ∷ xs) (p, ps) = ps
    All-erase_at (suc i) (x ∷ xs) (p, ps) = (p, All-erase_at i xs ps)

    pub All-get_elem : (i : ℕ) (xs : List A) (x : A) → get_elem? xs i ≡ some x → All P xs → P x
    All-get_elem i [] x e _ = absurd (ground arith)
    All-get_elem zero (y ∷ ys) x e (p, ps) = subst P (some-injective _ _ e) p
    All-get_elem (suc i) (y ∷ ys) x e (p, ps) = All-get_elem i ys x e ps

    pub All-snoc : (xs : List A) (x : A) → All P xs → P x → All P (xs ++ (x ∷ []))
    All-snoc [] x _ p = (p, tt)
    All-snoc (y ∷ ys) x (q, qs) p = (q, All-snoc ys x qs p)

  module _ {κ} (R : A → A → Type κ) where
    pub Pairwise-retain : (t : A → Bool) (xs : List A) → Pairwise R xs → Pairwise R (retain t xs)
    unfolding retain
    Pairwise-retain t [] _ = tt
    Pairwise-retain t (x ∷ xs) (r, rs) = elim (Bool-cases (t x)) [
      | inl e ↦ rw e (All-retain (R x) t xs r, Pairwise-retain t xs rs)
      | inr e ↦ rw e (Pairwise-retain t xs rs)
    ]

    pub Pairwise-erase_at : (i : ℕ) (xs : List A) → Pairwise R xs → Pairwise R (erase_at i xs)
    unfolding erase_at
    Pairwise-erase_at i [] _ = tt
    Pairwise-erase_at zero (x ∷ xs) (r, rs) = rs
    Pairwise-erase_at (suc i) (x ∷ xs) (r, rs) =
        (All-erase_at (R x) i xs r, Pairwise-erase_at i xs rs)

    pub Pairwise-snoc :
        (xs : List A) (x : A) → Pairwise R xs → All (λ y. R y x) xs → Pairwise R (xs ++ (x ∷ []))
    Pairwise-snoc [] x _ _ = (tt, tt)
    Pairwise-snoc (y ∷ ys) x (r, rs) (q, qs) = (All-snoc (R y) ys x r q, Pairwise-snoc ys x rs qs)

    -- The element that is taken is related to all that stay.
    pub get_elem-erase_at :
        ((a b : A) → R a b → R b a)
        → (i : ℕ) (xs : List A) (x : A) → get_elem? xs i ≡ some x
        → Pairwise R xs
        → All (R x) (erase_at i xs)
    unfolding erase_at
    get_elem-erase_at symm i [] x e _ = tt
    get_elem-erase_at symm zero (y ∷ ys) x e (r, rs) =
        subst (λ t. All (R t) ys) (some-injective _ _ e) r
    get_elem-erase_at symm (suc i) (y ∷ ys) x e (r, rs) =
        (symm y x (All-get_elem (R y) i ys x e r), get_elem-erase_at symm i ys x e rs)

  pub get_elem_of_lt : (i : ℕ) (xs : List A) → i < length xs → (x : A) × (get_elem? xs i ≡ some x)
  get_elem_of_lt i [] lt = absurd (omega arith)
  get_elem_of_lt zero (x ∷ xs) lt = (x, refl)
  get_elem_of_lt (suc i) (x ∷ xs) lt = get_elem_of_lt i xs (omega arith)

  pub length-erase_at :
      (i : ℕ) (xs : List A) → i < length xs → suc (length (erase_at i xs)) ≡ length xs
  unfolding erase_at
  length-erase_at i [] lt = absurd (omega arith)
  length-erase_at zero (x ∷ xs) lt = refl
  length-erase_at (suc i) (x ∷ xs) lt = omega (arith, length-erase_at i xs (omega arith))

module _ {ℓ ℓ'} {A : Type ℓ} {B : Type ℓ'} (f : A → B) where
  pub All-map {κ} : (P : B → Type κ) (xs : List A) → All (λ x. P (f x)) xs → All P (map f xs)
  All-map P [] _ = tt
  All-map P (x ∷ xs) (p, ps) = (p, All-map P xs ps)

  pub All-of_map {κ} : (P : B → Type κ) (xs : List A) → All P (map f xs) → All (λ x. P (f x)) xs
  All-of_map P [] _ = tt
  All-of_map P (x ∷ xs) (p, ps) = (p, All-of_map P xs ps)

  -- A relation between the images of some elements is one between those of the elements kept.
  pub Pairwise-map-retain {κ} :
      (R : B → B → Type κ) (t : A → Bool) (xs : List A)
      → Pairwise R (map f xs)
      → Pairwise R (map f (retain t xs))
  unfolding retain
  Pairwise-map-retain R t [] _ = tt
  Pairwise-map-retain R t (x ∷ xs) (r, rs) = elim (Bool-cases (t x)) [
    | inl e ↦ rw e (
      All-map (R (f x)) _ (All-retain _ t xs (All-of_map (R (f x)) xs r)),
      Pairwise-map-retain R t xs rs,
    )
    | inr e ↦ rw e (Pairwise-map-retain R t xs rs)
  ]

module _ {ℓ} {A : Type ℓ} where
  pub All-and {κ κ'} :
      (P : A → Type κ) (Q : A → Type κ') (xs : List A)
      → All P xs
      → All Q xs
      → All (λ a. P a × Q a) xs
  All-and P Q [] _ _ = tt
  All-and P Q (x ∷ xs) (p, ps) (q, qs) = ((p, q), All-and P Q xs ps qs)

  pub length-snoc : (xs : List A) (x : A) → length (xs ++ (x ∷ [])) ≡ suc (length xs)
  length-snoc [] x = refl
  length-snoc (y ∷ ys) x = ap suc (length-snoc ys x)

  -- Elements that a function tells apart stand at different places, so they are related.
  pub Pairwise-cross {κ κ'} :
      {T : Type κ'} (R : A → A → Type κ)
      → ((a b : A) → R a b → R b a)
      → (t : A → T) (xs : List A) → Pairwise R xs
      → All (λ a. All (λ b. t a ≢ t b → R a b) xs) xs
  Pairwise-cross R symm t [] _ = tt
  Pairwise-cross R symm t (x ∷ xs) (r, rs) = (
    ((λ ne. absurd (ne refl)), All-mono (λ b rel ne. rel) xs r),
    All-mono (λ a (rel, row). ((λ ne. symm x a rel), row)) xs
        (All-and _ _ xs r (Pairwise-cross R symm t xs rs)),
  )
