-- ===== src/Crypto.antt =====
-- services/common/src/crypto.rs: cipher pairs, running digests and session keys, over the
-- cryptography that the code takes from other packages.
pub mod Library
pub mod Ntor
pub mod Toy
pub mod Digest
use nopanic.Prelude.{
  ℕ, List, [], ◌∷◌, Bool, copy_at, length, take, drop, replicate, leb, if◌then◌else◌, u16_to_be,
  bytes_eq,
}
use Library.{Crypto}

-- `SessionKey`, two keys of 16 bytes.
pub record SessionKey : Type 0 where
  pub forward : List ℕ
  pub backward : List ℕ

-- `SessionKey::from_shared` and `from_bytes`, over an array of 32 bytes.
unfoldable pub from_shared : List ℕ → SessionKey
from_shared shared = record { forward = take 16 shared; backward = take 16 (drop 16 shared) }

-- `SessionKey::to_bytes`
unfoldable pub session_key_bytes : SessionKey → List ℕ
session_key_bytes k = copy_at (copy_at (replicate 32 0) 0 k.forward) 16 k.backward

module _ (lib : Crypto) where
  open lib use {
    Cipher, new_cipher, apply_keystream, Hasher, new_hasher, update_hasher, finalize_hasher,
  }

  -- `CipherPair`, the one implementation of `StatefulCipher`.
  pub record CipherPair : Type 0 where
    pub forward : Cipher
    pub backward : Cipher

  unfoldable pub new_pair : SessionKey → CipherPair
  new_pair key = record {
    forward = new_cipher key.forward (replicate 16 0);
    backward = new_cipher key.backward (replicate 16 0);
  }

  -- Both calls change the data in place: they return it beside the new cipher state.
  unfoldable pub apply_forward : CipherPair → List ℕ → List ℕ × CipherPair
  apply_forward p bytes =
      let (bytes', c) = apply_keystream p.forward bytes in (bytes', record p { forward = c })

  unfoldable pub apply_backward : CipherPair → List ℕ → List ℕ × CipherPair
  apply_backward p bytes =
      let (bytes', c) = apply_keystream p.backward bytes in (bytes', record p { backward = c })

  -- `RunningDigest::update`: the fields of a cell are hashed in, and the first four bytes of the
  -- hash so far are the tag.
  unfoldable pub update_digest : Hasher → ℕ → ℕ → List ℕ → List ℕ × Hasher
  update_digest state stream_id command bytes =
      let state' =
        update_hasher (update_hasher (update_hasher state (u16_to_be stream_id)) (command ∷ []))
          bytes in
      let snapshot = finalize_hasher state' in
      (if leb 4 (length snapshot) then take 4 snapshot else replicate 4 0, state')

  -- `RunningDigest::verify`
  unfoldable pub verify_digest : Hasher → ℕ → ℕ → List ℕ → List ℕ → Bool × Hasher
  unfolding update_digest
  verify_digest state stream_id command bytes expected =
      let (computed, state') = update_digest state stream_id command bytes in
      (bytes_eq computed expected, state')
