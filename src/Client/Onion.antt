-- ===== src/Client/Onion.antt =====
-- services/tor-client/src/core/crypto_engine.rs: the layers of encryption of a circuit.
pub mod Layers
use nopanic.Prelude.{ℕ, List, [], ◌∷◌}
use nopanic.Crypto.Library.{Crypto}
use nopanic.Crypto.{SessionKey, CipherPair, apply_forward, apply_backward}

-- `OnionKeys`: the hops are in order, the entry first.
pub record OnionKeys (lib : Crypto) : Type 0 where
  pub session_keys : List SessionKey
  pub ciphers : List (CipherPair lib)
  pub forward_digest : lib.Hasher
  pub backward_digest : lib.Hasher

module _ (lib : Crypto) where
  -- `OnionKeys::new`
  unfoldable pub new_keys : List SessionKey → List (CipherPair lib) → OnionKeys lib
  new_keys session_keys ciphers = record {
    session_keys = session_keys;
    ciphers = ciphers;
    forward_digest = lib.new_hasher;
    backward_digest = lib.new_hasher;
  }

  -- The loop over `ciphers.iter_mut().rev()`: the last cipher is applied first.
  unfoldable pub wrap : List (CipherPair lib) → List ℕ → List ℕ × List (CipherPair lib)
  wrap [] bytes = (bytes, [])
  wrap (c ∷ cs) bytes =
      let (inner, cs') = wrap cs bytes in
      let (outer, c') = apply_forward lib c inner in (outer, c' ∷ cs')

  -- The loop over `ciphers.iter_mut()`.
  unfoldable pub unwrap : List (CipherPair lib) → List ℕ → List ℕ × List (CipherPair lib)
  unwrap [] bytes = (bytes, [])
  unwrap (c ∷ cs) bytes =
      let (inner, c') = apply_backward lib c bytes in
      let (rest, cs') = unwrap cs inner in (rest, c' ∷ cs')

  unfoldable pub onion_encrypt : OnionKeys lib → List ℕ → List ℕ × OnionKeys lib
  unfolding wrap
  onion_encrypt keys bytes =
      let (bytes', ciphers) = wrap keys.ciphers bytes in (bytes', record keys { ciphers = ciphers })

  unfoldable pub onion_decrypt : OnionKeys lib → List ℕ → List ℕ × OnionKeys lib
  unfolding unwrap
  onion_decrypt keys bytes =
      let (bytes', ciphers) = unwrap keys.ciphers bytes in
      (bytes', record keys { ciphers = ciphers })
