-- ===== src/Crypto/Ntor.antt =====
-- services/common/src/crypto.rs: the ntor handshake, `ntor_server` and `ntor_client_finish_raw`.
pub mod Agreement
use nopanic.Prelude.{
  ℕ, List, [], ◌∷◌, ◌++◌, Option, none, some, Result, ok, err, Bool, take, drop, replicate,
  bytes_eq, not, if◌then◌else◌, copy_at,
}
use nopanic.Error.{TorError, handshake_auth_failed}
use nopanic.Crypto.Library.{Crypto}
use nopanic.Crypto.{SessionKey}

-- PROTOID, "ntor-curve25519-sha256-1", and the labels that are put behind it
abbrev pub protoid : List ℕ
protoid =
    b'n' ∷ b't' ∷ b'o' ∷ b'r' ∷ b'-' ∷ b'c' ∷ b'u' ∷ b'r' ∷ b'v' ∷ b'e' ∷ b'2' ∷ b'5' ∷ b'5' ∷ b'1'
    ∷ b'9' ∷ b'-' ∷ b's' ∷ b'h' ∷ b'a' ∷ b'2' ∷ b'5' ∷ b'6' ∷ b'-' ∷ b'1' ∷ []

-- ":key_extract", ":verify", ":mac", ":key_expand" and "Server"
unfoldable pub t_key : List ℕ
t_key =
    protoid
    ++ (b':' ∷ b'k' ∷ b'e' ∷ b'y' ∷ b'_' ∷ b'e' ∷ b'x' ∷ b't' ∷ b'r' ∷ b'a' ∷ b'c' ∷ b't' ∷ [])

unfoldable pub t_verify : List ℕ
t_verify = protoid ++ (b':' ∷ b'v' ∷ b'e' ∷ b'r' ∷ b'i' ∷ b'f' ∷ b'y' ∷ [])

unfoldable pub t_mac : List ℕ
t_mac = protoid ++ (b':' ∷ b'm' ∷ b'a' ∷ b'c' ∷ [])

unfoldable pub m_expand : List ℕ
m_expand =
    protoid ++ (b':' ∷ b'k' ∷ b'e' ∷ b'y' ∷ b'_' ∷ b'e' ∷ b'x' ∷ b'p' ∷ b'a' ∷ b'n' ∷ b'd' ∷ [])

abbrev server_label : List ℕ
server_label = b'S' ∷ b'e' ∷ b'r' ∷ b'v' ∷ b'e' ∷ b'r' ∷ []

-- `build_secret_input`
unfoldable pub build_secret_input : List ℕ → List ℕ → List ℕ → List ℕ → List ℕ → List ℕ
build_secret_input exp1 exp2 server_static client_ephemeral server_ephemeral =
    exp1 ++ (exp2 ++ (server_static ++ (client_ephemeral ++ (server_ephemeral ++ protoid))))

-- The input of the AUTH tag, built alike on both sides.
unfoldable pub build_auth_input : List ℕ → List ℕ → List ℕ → List ℕ → List ℕ
build_auth_input verify server_static server_ephemeral client_ephemeral =
    verify
    ++ (server_static ++ (server_ephemeral ++ (client_ephemeral ++ (protoid ++ server_label))))

module _ (lib : Crypto) where
  open lib use {new_mac, update_mac, finalize_mac, public_of, diffie_hellman}

  unfoldable pub hmac_sha256 : List ℕ → List ℕ → List ℕ
  hmac_sha256 key bytes = elim (new_mac key) [
    | none ↦ replicate 32 0
    | some mac ↦ finalize_mac (update_mac mac bytes)
  ]

  unfoldable pub expand_key_seed : List ℕ → SessionKey
  unfolding m_expand hmac_sha256
  expand_key_seed seed =
      let material = hmac_sha256 m_expand seed in
      record { forward = take 16 material; backward = drop 16 material }

  -- `ntor_server`, with the ephemeral secret that the code draws as an argument: the ephemeral
  -- public key, the AUTH tag and the session key.
  unfoldable pub ntor_server : List ℕ → List ℕ → List ℕ → List ℕ → List ℕ × List ℕ × SessionKey
  ntor_server y_secret static_secret static_public client_ephemeral =
      let y_public = public_of y_secret in
      let exp1 = diffie_hellman y_secret client_ephemeral in
      let exp2 = diffie_hellman static_secret client_ephemeral in
      let secret_input = build_secret_input exp1 exp2 static_public client_ephemeral y_public in
      let key_seed = hmac_sha256 t_key secret_input in
      let verify = hmac_sha256 t_verify secret_input in
      let auth_input = build_auth_input verify static_public y_public client_ephemeral in
      (y_public, hmac_sha256 t_mac auth_input, expand_key_seed key_seed)

  -- `ntor_client_finish_raw`
  unfoldable pub ntor_client_finish :
      List ℕ → List ℕ → List ℕ → List ℕ → List ℕ → Result TorError SessionKey
  ntor_client_finish x_secret client_ephemeral server_static server_ephemeral auth =
      let exp1 = diffie_hellman x_secret server_ephemeral in
      let exp2 = diffie_hellman x_secret server_static in
      let secret_input =
        build_secret_input exp1 exp2 server_static client_ephemeral server_ephemeral in
      let key_seed = hmac_sha256 t_key secret_input in
      let verify = hmac_sha256 t_verify secret_input in
      let auth_input = build_auth_input verify server_static server_ephemeral client_ephemeral in
      let expected_auth = hmac_sha256 t_mac auth_input in
      if not (bytes_eq auth expected_auth)
      then err handshake_auth_failed
      else ok (expand_key_seed key_seed)
