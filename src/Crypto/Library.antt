-- ===== src/Crypto/Library.antt =====
-- The packages aes and ctr, sha2, hmac and curve25519 as `common/src/crypto.rs` calls them, and
-- what their documentation promises.
use nopanic.Prelude.{ℕ, ◌≡◌, List, Option, length}

pub record Crypto : Type 1 where
  -- `Ctr128BE<Aes128>`: a key and an initial counter, and the keystream applied in place.
  pub Cipher : Type 0
  pub new_cipher : List ℕ → List ℕ → Cipher
  pub apply_keystream : Cipher → List ℕ → List ℕ × Cipher
  -- `Sha256`
  pub Hasher : Type 0
  pub new_hasher : Hasher
  pub update_hasher : Hasher → List ℕ → Hasher
  pub finalize_hasher : Hasher → List ℕ
  -- `Hmac<Sha256>`: `new_from_slice` may refuse the key.
  pub Mac : Type 0
  pub new_mac : List ℕ → Option Mac
  pub update_mac : Mac → List ℕ → Mac
  pub finalize_mac : Mac → List ℕ
  -- X25519: the public key of a secret, and the exchange.
  pub public_of : List ℕ → List ℕ
  pub diffie_hellman : List ℕ → List ℕ → List ℕ

-- A keystream is a function of the cipher's position, and applying it a second time from the same
-- position undoes it and ends at the same position; it keeps the length.
pub record KeystreamLaws (lib : Crypto) : Type 0 where
  pub undo :
      (c : lib.Cipher) (bytes : List ℕ)
      → lib.apply_keystream c (lib.apply_keystream c bytes).0
        ≡ (bytes, (lib.apply_keystream c bytes).1)
  pub keeps_length :
      (c : lib.Cipher) (bytes : List ℕ) → length (lib.apply_keystream c bytes).0 ≡ length bytes

-- The two ends of an X25519 exchange agree.
abbrev pub Commutes : Crypto → Type 0
Commutes lib =
    (a b : List ℕ) → lib.diffie_hellman a (lib.public_of b) ≡ lib.diffie_hellman b (lib.public_of a)

-- An X25519 public key and an HMAC-SHA256 tag are 32 bytes.
pub record SizeLaws (lib : Crypto) : Type 0 where
  pub length-public_of : (secret : List ℕ) → length (lib.public_of secret) ≡ 32
  pub length-finalize_mac : (mac : lib.Mac) → length (lib.finalize_mac mac) ≡ 32
