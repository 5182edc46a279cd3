-- ===== src/Discovery/Policy.antt =====
-- `ExitPolicy` of services/common/src/types.rs.
pub mod Permits
use nopanic.Prelude.{List, [], ◌∷◌, Bool, true, false, not, ◌&&◌, contains, ◌==◌, if◌then◌else◌}
use nopanic.Discovery.{ExitPolicy, SocketAddr, ip_eq}

abbrev pub is_empty {ℓ} : {A : Type ℓ} → List A → Bool
is_empty [] = true
is_empty (x ∷ xs) = false

unfoldable pub default_policy : ExitPolicy
default_policy = record {
  allowed_ports = 80 ∷ 443 ∷ 8080 ∷ 8443 ∷ [];
  blocked_ports = 25 ∷ 587 ∷ 465 ∷ [];
  allowed_ips = [];
  blocked_ips = [];
}

unfoldable pub allow_all : ExitPolicy
allow_all = record { allowed_ports = []; blocked_ports = []; allowed_ips = []; blocked_ips = [] }

-- `ExitPolicy::allows`
unfoldable pub allows : ExitPolicy → SocketAddr → Bool
allows p addr =
    if contains ip_eq addr.ip p.blocked_ips
    then false
    else (if not (is_empty p.allowed_ips) && not (contains ip_eq addr.ip p.allowed_ips)
        then false
        else (if contains ◌==◌ addr.port p.blocked_ports
            then false
            else (if is_empty p.allowed_ports
                then true
                else contains ◌==◌ addr.port p.allowed_ports)))
