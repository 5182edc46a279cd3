-- ===== src/Crypto/Toy.antt =====
-- A small library that keeps the documented laws, for the examples: the keystream flips the lowest
-- bit at every other position, hashes and tags are sums.
use nopanic.Prelude.{
  ℕ, suc, ◌+◌, ◌-◌, ◌*◌, ◌%◌, ◌≡◌, ap, refl, List, [], ◌∷◌, ◌++◌, some, length, replicate, ◌==◌,
  if◌then◌else◌, arith,
}
use nopanic.Crypto.Library.{Crypto, KeystreamLaws, SizeLaws, Commutes}

abbrev sum : List ℕ → ℕ
sum [] = 0
sum (x ∷ xs) = x + sum xs

abbrev mask : ℕ → ℕ → ℕ
mask position x = if position % 2 == 0 then x + 1 - 2 * (x % 2) else x

abbrev stream : ℕ → List ℕ → List ℕ × ℕ
stream position [] = ([], position)
stream position (x ∷ xs) =
    let (ys, after) = stream (suc position) xs in (mask position x ∷ ys, after)

abbrev pub toy : Crypto
toy = record {
  Cipher = ℕ;
  new_cipher = λ key iv. sum key + sum iv;
  apply_keystream = stream;
  Hasher = List ℕ;
  new_hasher = [];
  update_hasher = λ state bytes. state ++ bytes;
  finalize_hasher = λ state. (sum state % 256) ∷ replicate 31 0;
  Mac = List ℕ;
  new_mac = λ key. some key;
  update_mac = λ mac bytes. mac ++ bytes;
  finalize_mac = λ mac. (sum mac % 256) ∷ replicate 31 7;
  public_of = λ secret. sum secret ∷ replicate 31 0;
  diffie_hellman = λ secret public. (sum secret + sum public) ∷ [];
}

mask_twice : (position x : ℕ) → mask position (mask position x) ≡ x
mask_twice position x = ground arith

stream_twice :
    (position : ℕ) (xs : List ℕ)
    → stream position (stream position xs).0 ≡ (xs, (stream position xs).1)
stream_twice position [] = refl
stream_twice position (x ∷ xs) =
    let ih = stream_twice (suc position) xs in λ i. (mask_twice position x i ∷ (ih i).0, (ih i).1)

length-stream : (position : ℕ) (xs : List ℕ) → length (stream position xs).0 ≡ length xs
length-stream position [] = refl
length-stream position (x ∷ xs) = ap suc (length-stream (suc position) xs)

pub toy-KeystreamLaws : KeystreamLaws toy
toy-KeystreamLaws = record { undo = stream_twice; keeps_length = length-stream }

pub toy-Commutes : Commutes toy
toy-Commutes a b = ap (λ t. t ∷ []) (omega arith)

pub toy-SizeLaws : SizeLaws toy
toy-SizeLaws = record { length-public_of = λ secret. refl; length-finalize_mac = λ mac. refl }
