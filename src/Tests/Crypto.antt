-- ===== src/Tests/Crypto.antt =====
-- The ntor handshake and the layers of services/tor-client/src/core/crypto_engine.rs.
use nopanic.Prelude.{ℕ, ◌≡◌, List, [], ◌∷◌, ok, err, ◌≢◌}
use nopanic.Error.{handshake_auth_failed}
use nopanic.Crypto.{SessionKey, CipherPair}
use nopanic.Crypto.Toy.{toy, toy-KeystreamLaws, toy-Commutes}
use nopanic.Crypto.Ntor.{ntor_server, ntor_client_finish, hmac_sha256}
use nopanic.Crypto.Ntor.Agreement.{ntor_client_finish-ntor_server, ntor_client_finish_auth}
use nopanic.Client.Onion.{wrap, unwrap}
use nopanic.Client.Onion.Layers.{peel, coat, peel-wrap, unwrap-coat}

abbrev client_secret : List ℕ
client_secret = 3 ∷ []

abbrev server_secret : List ℕ
server_secret = 5 ∷ []

abbrev static_secret : List ℕ
static_secret = 7 ∷ []

abbrev client_public : List ℕ
client_public = toy.public_of client_secret

abbrev static_public : List ℕ
static_public = toy.public_of static_secret

abbrev reply : List ℕ × List ℕ × SessionKey
reply = ntor_server toy server_secret static_secret static_public client_public

ntor_client_finish-ntor_server_example :
    ntor_client_finish toy client_secret client_public static_public reply.0 reply.1 ≡ ok reply.2
ntor_client_finish-ntor_server_example =
    ntor_client_finish-ntor_server toy client_secret server_secret static_secret toy-Commutes

tag-ne-nil : [] ≢ reply.1
unfolding ntor_server hmac_sha256
tag-ne-nil h = cc

ntor_client_finish_auth_example :
    ntor_client_finish toy client_secret client_public static_public reply.0 []
    ≡ err handshake_auth_failed
ntor_client_finish_auth_example =
    ntor_client_finish_auth toy client_secret client_public static_public reply.0 reply.1 [] reply.2
      (ntor_client_finish-ntor_server toy client_secret server_secret static_secret toy-Commutes)
      tag-ne-nil

abbrev hops : List (CipherPair toy)
hops =
    record { forward = 0; backward = 7 }
    ∷ record { forward = 1; backward = 8 }
    ∷ record { forward = 4; backward = 9 }
    ∷ []

abbrev hello : List ℕ
hello = b'h' ∷ b'e' ∷ b'l' ∷ b'l' ∷ b'o' ∷ []

peel-wrap_example : peel toy hops (wrap toy hops hello).0 ≡ (hello, (wrap toy hops hello).1)
peel-wrap_example = peel-wrap toy toy-KeystreamLaws hops hello

unwrap-coat_example : unwrap toy hops (coat toy hops hello).0 ≡ (hello, (coat toy hops hello).1)
unwrap-coat_example = unwrap-coat toy toy-KeystreamLaws hops hello
