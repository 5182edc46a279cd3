-- ===== src/Prelude/Lists.antt =====
-- Lists measured, cut and indexed by native numbers, under the library's names.
use Prim.Native.Nat.{ℕ, zero, suc, ◌+◌, ◌-◌, ◌≤◌, min}
use mathlib.Core.Path.{◌≡◌, refl, ap, sym, ◌∙◌}
use mathlib.Core.List.{List, [], ◌∷◌, ◌++◌, append-nil}
use mathlib.Core.Bool.{◌&&◌, true}
use mathlib.Core.Option.{Option, none, some}
use native.Mathlib.Omega.{arith}
use nopanic.Prelude.Tests.{leb, le→leb, if◌then◌else◌}

module _ {ℓ} {A : Type ℓ} where
  abbrev pub length : List A → ℕ
  length [] = 0
  length (x ∷ xs) = suc (length xs)

  abbrev pub get_elem? : List A → ℕ → Option A
  get_elem? [] i = none
  get_elem? (x ∷ xs) zero = some x
  get_elem? (x ∷ xs) (suc i) = get_elem? xs i

  abbrev pub take : ℕ → List A → List A
  take zero xs = []
  take (suc n) [] = []
  take (suc n) (x ∷ xs) = x ∷ take n xs

  abbrev pub drop : ℕ → List A → List A
  drop zero xs = xs
  drop (suc n) [] = []
  drop (suc n) (x ∷ xs) = drop n xs

  abbrev pub replicate : ℕ → A → List A
  replicate zero a = []
  replicate (suc n) a = a ∷ replicate n a

module _ {ℓ} {A : Type ℓ} where
  -- `xs.get(a..b)`
  abbrev pub get_range : List A → ℕ → ℕ → Option (List A)
  get_range xs a b = if leb a b && leb b (length xs) then some (take (b - a) (drop a xs)) else none

  -- `xs.get_mut(a..a + src.len())` and then `copy_from_slice(src)`; out of range nothing is written.
  abbrev pub copy_at : List A → ℕ → List A → List A
  copy_at xs a src =
      if leb (a + length src) (length xs)
      then take a xs ++ (src ++ drop (a + length src) xs)
      else xs

  pub length-append : (xs ys : List A) → length (xs ++ ys) ≡ length xs + length ys
  length-append [] ys = omega arith
  length-append (x ∷ xs) ys = omega (arith, length-append xs ys)

  pub length-take : (n : ℕ) (xs : List A) → length (take n xs) ≡ min n (length xs)
  length-take zero xs = omega arith
  length-take (suc n) [] = omega arith
  length-take (suc n) (x ∷ xs) = omega (arith, length-take n xs)

  pub length-drop : (n : ℕ) (xs : List A) → length (drop n xs) ≡ length xs - n
  length-drop zero xs = omega arith
  length-drop (suc n) [] = omega arith
  length-drop (suc n) (x ∷ xs) = omega (arith, length-drop n xs)

  pub length-replicate : (n : ℕ) (a : A) → length (replicate n a) ≡ n
  length-replicate zero a = refl
  length-replicate (suc n) a = ap suc (length-replicate n a)

  pub take_of_length-le : (n : ℕ) (l : List A) → length l ≤ n → take n l ≡ l
  take_of_length-le zero [] short = refl
  take_of_length-le (suc n) [] short = refl
  take_of_length-le (suc n) (a ∷ l) short = ap (◌∷◌ a) (take_of_length-le n l (omega arith))
  take_of_length-le zero (a ∷ l) short = absurd (omega arith)

  pub take-append_left : (xs ys : List A) → take (length xs) (xs ++ ys) ≡ xs
  take-append_left [] ys = refl
  take-append_left (x ∷ xs) ys = ap (◌∷◌ x) (take-append_left xs ys)

  pub drop-append_left : (xs ys : List A) → drop (length xs) (xs ++ ys) ≡ ys
  drop-append_left [] ys = refl
  drop-append_left (x ∷ xs) ys = drop-append_left xs ys

  pub take-append-drop : (n : ℕ) (xs : List A) → take n xs ++ drop n xs ≡ xs
  take-append-drop zero xs = refl
  take-append-drop (suc n) [] = refl
  take-append-drop (suc n) (x ∷ xs) = ap (◌∷◌ x) (take-append-drop n xs)

  pub replicate_add : (n m : ℕ) (a : A) → replicate (n + m) a ≡ replicate n a ++ replicate m a
  replicate_add zero m a = ap (λ k. replicate k a) (omega arith)
  replicate_add (suc n) m a =
      let e : suc n + m ≡ suc (n + m) = omega arith in
      ap (λ k. replicate k a) e ∙ ap (◌∷◌ a) (replicate_add n m a)

module _ {ℓ} {A : Type ℓ} where
  pub drop-append_add :
      (pre : List A) (n : ℕ) (xs : List A) → drop (length pre + n) (pre ++ xs) ≡ drop n xs
  drop-append_add [] n xs = ap (λ k. drop k xs) (omega arith)
  drop-append_add (x ∷ pre) n xs =
      let e : suc (length pre) + n ≡ suc (length pre + n) = omega arith in
      ap (λ k. drop k (x ∷ (pre ++ xs))) e ∙ drop-append_add pre n xs

  drop_of_length : (n : ℕ) (old rest : List A) → length old ≡ n → drop n (old ++ rest) ≡ rest
  drop_of_length n old rest h = ap (λ k. drop k (old ++ rest)) (sym h) ∙ drop-append_left old rest

  -- A write behind a prefix: the slice that it covers is replaced.
  pub copy_at-append :
      (pre src old rest : List A)
      → length old ≡ length src
      → copy_at (pre ++ (old ++ rest)) (length pre) src ≡ pre ++ (src ++ rest)
  copy_at-append pre src old rest q =
      let cell : List A = pre ++ (old ++ rest) in
      let e : leb (length pre + length src) (length cell) ≡ true =
        le→leb _ _ (omega (arith, length-append pre (old ++ rest), length-append old rest)) in
      rw (e, take-append_left pre (old ++ rest), drop-append_add pre (length src) (old ++ rest))
        (ap (λ t. pre ++ (src ++ t)) (drop_of_length (length src) old rest q))

  pub copy_at-append_at :
      (pre src old rest : List A) (n : ℕ)
      → length pre ≡ n
      → length old ≡ length src
      → copy_at (pre ++ (old ++ rest)) n src ≡ pre ++ (src ++ rest)
  copy_at-append_at pre src old rest n p q =
      ap (λ k. copy_at (pre ++ (old ++ rest)) k src) (sym p) ∙ copy_at-append pre src old rest q

  -- A write at the end replaces what stands there.
  pub copy_at-append_last :
      (pre src old : List A) (n : ℕ)
      → length pre ≡ n
      → length old ≡ length src
      → copy_at (pre ++ old) n src ≡ pre ++ src
  copy_at-append_last pre src old n p q =
      ap (λ t. copy_at (pre ++ t) n src) (sym (append-nil old))
      ∙ copy_at-append_at pre src old [] n p q
      ∙ ap (◌++◌ pre) (append-nil src)

  pub take-append_add :
      (pre : List A) (n : ℕ) (xs : List A) → take (length pre + n) (pre ++ xs) ≡ pre ++ take n xs
  take-append_add [] n xs = ap (λ k. take k xs) (omega arith)
  take-append_add (x ∷ pre) n xs =
      let e : suc (length pre) + n ≡ suc (length pre + n) = omega arith in
      ap (λ k. take k (x ∷ (pre ++ xs))) e ∙ ap (◌∷◌ x) (take-append_add pre n xs)
