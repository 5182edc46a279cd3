-- ===== src/Error.antt =====
-- services/common/src/error.rs: `TorError`. A message text is a list of bytes; the errors that it
-- wraps are the cases `io` and `serialization`.
use nopanic.Prelude.{ℕ, List}

pub data TorError : Type 0 where
  io : TorError
  serialization : TorError
  protocol : List ℕ → TorError
  crypto : List ℕ → TorError
  invalid_node_type : List ℕ → TorError
  circuit : List ℕ → TorError
  stream : List ℕ → TorError
  directory : List ℕ → TorError
  exit_policy : List ℕ → TorError
  timeout : List ℕ → TorError
  invalid_address : List ℕ → TorError
  payload_too_large : ℕ → ℕ → TorError
  digest_mismatch : ℕ → ℕ → TorError
  handshake_auth_failed : TorError
  tls_handshake : List ℕ → TorError
  certificate_fingerprint_mismatch : List ℕ → List ℕ → TorError
