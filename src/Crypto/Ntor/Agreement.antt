-- ===== src/Crypto/Ntor/Agreement.antt =====
-- The two sides of the ntor handshake agree, and the client takes no other answer.
use nopanic.Prelude.{
  ◌∙◌, sym, if◌then◌else◌, not, ◌≡◌, ◌≢◌, ℕ, List, ok, err, Bool-cases, inl, inr, bytes_eq,
  bytes_eq_refl, bytes_eq→eq, arith,
}
use nopanic.Error.{handshake_auth_failed}
use nopanic.Crypto.Library.{Crypto, Commutes}
use nopanic.Crypto.{SessionKey}
use nopanic.Crypto.Ntor.{ntor_server, ntor_client_finish}

module _ {ℓ κ} {E : Type ℓ} {A : Type κ} (auth expected : List ℕ) (e : E) (k : A) where
  equal_of_accepted :
      {key : A} → (if not (bytes_eq auth expected) then err e else ok k) ≡ ok key → auth ≡ expected
  equal_of_accepted h = ground (arith, bytes_eq→eq auth expected)

  refused_of_ne : auth ≢ expected → (if not (bytes_eq auth expected) then err e else ok k) ≡ err e
  refused_of_ne h = elim (Bool-cases (bytes_eq auth expected)) [
    | inl same ↦ absurd (h (bytes_eq→eq auth expected same))
    | inr differ ↦ rw differ
  ]

module _ (lib : Crypto) where
  open lib use {public_of}

  -- What an honest relay answers to a client's ephemeral key, the client accepts, and it derives
  -- the session key that the relay derived.
  pub ntor_client_finish-ntor_server :
      (x y b : List ℕ)
      → Commutes lib
      → (let reply = ntor_server lib y b (public_of b) (public_of x) in
          ntor_client_finish lib x (public_of x) (public_of b) reply.0 reply.1 ≡ ok reply.2)
  unfolding ntor_client_finish ntor_server
  ntor_client_finish-ntor_server x y b comm = rw (comm x y, comm x b, bytes_eq_refl)

  -- For one answer of a relay, the client accepts one AUTH tag only: with any other it refuses, and
  -- so the session key of an accepted handshake does not depend on the tag.
  pub ntor_client_finish_auth :
      (x x_public b_public y_public auth auth' : List ℕ) (key : SessionKey)
      → ntor_client_finish lib x x_public b_public y_public auth ≡ ok key
      → auth' ≢ auth
      → ntor_client_finish lib x x_public b_public y_public auth' ≡ err handshake_auth_failed
  unfolding ntor_client_finish
  ntor_client_finish_auth x xp bp yp auth auth' key accepted other =
      refused_of_ne auth' _ handshake_auth_failed _
        (λ same. other (same ∙ sym (equal_of_accepted auth _ handshake_auth_failed _ accepted)))
