-- ===== src/Client/Onion/Layers.antt =====
-- The client's layers against those of the relays, which hold the same cipher pairs.
use nopanic.Prelude.{ℕ, ◌≡◌, ◌∙◌, refl, ap, List, [], ◌∷◌, length}
use nopanic.Crypto.Library.{Crypto, KeystreamLaws}
use nopanic.Crypto.{CipherPair, apply_forward, apply_backward}
use nopanic.Client.Onion.{wrap, unwrap}

module _ (lib : Crypto) where
  -- A cell goes through the relays, the entry first: each takes its layer off.
  pub peel : List (CipherPair lib) → List ℕ → List ℕ × List (CipherPair lib)
  peel [] bytes = (bytes, [])
  peel (c ∷ cs) bytes =
      let (inner, c') = apply_forward lib c bytes in
      let (rest, cs') = peel cs inner in (rest, c' ∷ cs')

  -- A cell goes back, from the exit to the entry: each relay adds its layer.
  unfoldable pub coat : List (CipherPair lib) → List ℕ → List ℕ × List (CipherPair lib)
  coat [] bytes = (bytes, [])
  coat (c ∷ cs) bytes =
      let (inner, cs') = coat cs bytes in
      let (outer, c') = apply_backward lib c inner in (outer, c' ∷ cs')

  module _ (laws : KeystreamLaws lib) where
    pub apply_forward_undo :
        (c : CipherPair lib) (bytes : List ℕ)
        → apply_forward lib c (apply_forward lib c bytes).0 ≡ (bytes, (apply_forward lib c bytes).1)
    unfolding apply_forward
    apply_forward_undo c bytes =
        ap (λ t. (t.0, record c { forward = t.1 })) (laws.undo c.forward bytes)

    pub apply_backward_undo :
        (c : CipherPair lib) (bytes : List ℕ)
        → apply_backward lib c (apply_backward lib c bytes).0
          ≡ (bytes, (apply_backward lib c bytes).1)
    unfolding apply_backward
    apply_backward_undo c bytes =
        ap (λ t. (t.0, record c { backward = t.1 })) (laws.undo c.backward bytes)

    -- On a circuit of any number of hops, what the client wraps the relays peel back to the same
    -- bytes, and each relay's cipher is afterwards where the client's cipher for it is.
    pub peel-wrap :
        (cs : List (CipherPair lib)) (bytes : List ℕ)
        → peel cs (wrap lib cs bytes).0 ≡ (bytes, (wrap lib cs bytes).1)
    unfolding peel wrap
    peel-wrap [] bytes = refl
    peel-wrap (c ∷ cs) bytes = rw (apply_forward_undo c (wrap lib cs bytes).0, peel-wrap cs bytes)

    -- And the other way: what the relays coat the client unwraps.
    pub unwrap-coat :
        (cs : List (CipherPair lib)) (bytes : List ℕ)
        → unwrap lib cs (coat cs bytes).0 ≡ (bytes, (coat cs bytes).1)
    unfolding coat unwrap
    unwrap-coat [] bytes = refl
    unwrap-coat (c ∷ cs) bytes = rw (apply_backward_undo c (coat cs bytes).0, unwrap-coat cs bytes)

    pub length-wrap :
        (cs : List (CipherPair lib)) (bytes : List ℕ) → length (wrap lib cs bytes).0 ≡ length bytes
    unfolding wrap apply_forward
    length-wrap [] bytes = refl
    length-wrap (c ∷ cs) bytes = laws.keeps_length c.forward _ ∙ length-wrap cs bytes

    pub length-unwrap :
        (cs : List (CipherPair lib)) (bytes : List ℕ)
        → length (unwrap lib cs bytes).0 ≡ length bytes
    unfolding unwrap apply_backward
    length-unwrap [] bytes = refl
    length-unwrap (c ∷ cs) bytes =
        length-unwrap cs (apply_backward lib c bytes).0 ∙ laws.keeps_length c.backward bytes

    pub length-coat :
        (cs : List (CipherPair lib)) (bytes : List ℕ) → length (coat cs bytes).0 ≡ length bytes
    unfolding coat apply_backward
    length-coat [] bytes = refl
    length-coat (c ∷ cs) bytes = laws.keeps_length c.backward _ ∙ length-coat cs bytes
