-- ===== src/Discovery.antt =====
-- services/common/src/types.rs: the descriptor of a relay, its address and its exit policy.
pub mod Policy
pub mod Registry
pub mod Path
pub mod Service
use nopanic.Prelude.{◌≡◌, arith, ℕ, ◌/◌, List, Option, Bool, true, false, ◌==◌}

pub data NodeType : Type 0 where
  entry middle exit : NodeType

-- `std::net::IpAddr`, an address as one number.
pub data IpAddr : Type 0 where
  v4 v6 : ℕ → IpAddr

-- `std::net::SocketAddr`; the last two fields are those of `SocketAddrV6`, and 0 for IPv4.
pub record SocketAddr : Type 0 where
  pub ip : IpAddr
  pub port : ℕ
  pub flowinfo : ℕ
  pub scope_id : ℕ

-- 127.0.0.0/8 and ::1
unfoldable pub is_loopback : IpAddr → Bool
is_loopback (v4 n) = n / 16777216 == 127
is_loopback (v6 n) = n == 1

abbrev pub ip_eq : IpAddr → IpAddr → Bool
ip_eq (v4 m) (v4 n) = m == n
ip_eq (v6 m) (v6 n) = m == n
ip_eq _ _ = false

pub record ExitPolicy : Type 0 where
  pub allowed_ports : List ℕ
  pub blocked_ports : List ℕ
  pub allowed_ips : List IpAddr
  pub blocked_ips : List IpAddr

pub record NodeDescriptor : Type 0 where
  pub node_id : List ℕ
  pub node_type : NodeType
  pub address : SocketAddr
  pub public_key : List ℕ
  pub bandwidth : ℕ
  pub exit_policy : Option ExitPolicy
  pub operator_id : Option (List ℕ)
  pub tls_cert_fingerprint : List ℕ

abbrev pub node_type_eq : NodeType → NodeType → Bool
node_type_eq entry entry = true
node_type_eq middle middle = true
node_type_eq exit exit = true
node_type_eq _ _ = false

pub ip_eq_refl : (a : IpAddr) → ip_eq a a ≡ true
ip_eq_refl (v4 n) = ground arith
ip_eq_refl (v6 n) = ground arith

pub ip_eq→eq : (a b : IpAddr) → ip_eq a b ≡ true → a ≡ b
ip_eq→eq (v4 m) (v4 n) h = ground arith
ip_eq→eq (v6 m) (v6 n) h = ground arith
ip_eq→eq (v4 m) (v6 n) h = absurd (ground arith)
ip_eq→eq (v6 m) (v4 n) h = absurd (ground arith)
