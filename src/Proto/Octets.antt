-- ===== src/Proto/Octets.antt =====
-- An address as its octets, the highest first: `Ipv4Addr::octets`, `Ipv6Addr::octets` and back.
use nopanic.Prelude.{
  ℕ, zero, suc, ◌+◌, ◌*◌, ◌/◌, ◌%◌, ◌<◌, ◌≡◌, ◌∙◌, refl, List, [], ◌∷◌, ◌++◌, length, length-append,
  arith,
}

abbrev pub bound : ℕ → ℕ
bound zero = 1
bound (suc k) = 256 * bound k

unfoldable pub octets : ℕ → ℕ → List ℕ
octets zero n = []
octets (suc k) n = octets k (n / 256) ++ (n % 256 ∷ [])

abbrev from_octets_onto : ℕ → List ℕ → ℕ
from_octets_onto n [] = n
from_octets_onto n (b ∷ bs) = from_octets_onto (n * 256 + b) bs

unfoldable pub from_octets : List ℕ → ℕ
from_octets bs = from_octets_onto 0 bs

pub length-octets : (k n : ℕ) → length (octets k n) ≡ k
unfolding octets
length-octets zero n = refl
length-octets (suc k) n =
    omega (arith, length-append (octets k (n / 256)) (n % 256 ∷ []), length-octets k (n / 256))

from_octets_onto-append :
    (n : ℕ) (xs : List ℕ) (b : ℕ)
    → from_octets_onto n (xs ++ (b ∷ [])) ≡ from_octets_onto n xs * 256 + b
from_octets_onto-append n [] b = refl
from_octets_onto-append n (x ∷ xs) b = from_octets_onto-append (n * 256 + x) xs b

pub from_octets-octets : (k n : ℕ) → n < bound k → from_octets (octets k n) ≡ n
unfolding from_octets octets
from_octets-octets zero n small = omega arith
from_octets-octets (suc k) n small =
    from_octets_onto-append 0 (octets k (n / 256)) (n % 256)
    ∙ omega (arith, from_octets-octets k (n / 256) (omega arith))
