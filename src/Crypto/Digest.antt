-- ===== src/Crypto/Digest.antt =====
-- services/common/src/crypto.rs: the tag of a cell.
use nopanic.Prelude.{
  replicate, ℕ, ◌≡◌, List, length, take, leb, leb→le, if◌then◌else◌, Bool-cases, inl, inr, arith,
  length-take, bytes_eq_refl, true,
}
use nopanic.Crypto.Library.{Crypto}
use nopanic.Crypto.{update_digest, verify_digest}

length-tag :
    (hash : List ℕ) → length (if leb 4 (length hash) then take 4 hash else replicate 4 0) ≡ 4
length-tag hash = elim (Bool-cases (leb 4 (length hash))) [
  | inl long ↦ rw long (omega (arith, length-take 4 hash, leb→le 4 (length hash) long))
  | inr short ↦ rw short
]

module _ (lib : Crypto) (state : lib.Hasher) (stream_id command : ℕ) (bytes : List ℕ) where
  -- A tag has four bytes, whatever the hash gives.
  pub length-update_digest : length (update_digest lib state stream_id command bytes).0 ≡ 4
  unfolding update_digest
  length-update_digest = length-tag _

  -- Two ends that have hashed the same agree on the next cell, and go on alike.
  pub verify_digest-update_digest :
      (let (tag, state') = update_digest lib state stream_id command bytes in
        verify_digest lib state stream_id command bytes tag ≡ (true, state'))
  unfolding verify_digest
  verify_digest-update_digest = rw bytes_eq_refl
