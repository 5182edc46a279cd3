-- ===== src/Proto.antt =====
-- services/proto/src/lib.rs: the descriptors as they go over gRPC. The messages are those of
-- services/proto/definitions/types.proto; an enum's number that it does not list is refused by the
-- generated code. The text of an address and its parser are parameters.
pub mod Octets
pub mod Descriptors
use nopanic.Prelude.{
  ℕ, zero, suc, ◌%◌, List, [], ◌∷◌, map, Option, none, some, Result, ok, err, ok_or, ensure, ◌>>=◌,
  ◌>>◌, length, ◌==◌, if◌then◌else◌,
}
use nopanic.Discovery.{NodeType, IpAddr, v4, v6, SocketAddr, ExitPolicy, NodeDescriptor}
use Octets.{octets, from_octets}

-- `tonic::Status::invalid_argument`, by its message.
pub data Status : Type 0 where
  node_type_unspecified invalid_node_type invalid_address key_size key_required : Status
  invalid_ip_length : ℕ → Status

pub record ProtoPolicy : Type 0 where
  pub allowed_ports : List ℕ
  pub blocked_ports : List ℕ
  pub allowed_ips : List (List ℕ)
  pub blocked_ips : List (List ℕ)

pub record ProtoDescriptor : Type 0 where
  pub node_id : List ℕ
  pub node_type : ℕ
  pub address : List ℕ
  pub public_key : Option (List ℕ)
  pub bandwidth : ℕ
  pub exit_policy : Option ProtoPolicy
  pub operator_id : Option (List ℕ)
  pub tls_cert_fingerprint : List ℕ

-- NODE_TYPE_UNSPECIFIED is 0.
unfoldable pub node_type_to_proto : NodeType → ℕ
node_type_to_proto NodeType.entry = 1
node_type_to_proto NodeType.middle = 2
node_type_to_proto NodeType.exit = 3

unfoldable pub node_type_from_proto : ℕ → Result Status NodeType
node_type_from_proto zero = err node_type_unspecified
node_type_from_proto (suc zero) = ok NodeType.entry
node_type_from_proto (suc (suc zero)) = ok NodeType.middle
node_type_from_proto (suc (suc (suc zero))) = ok NodeType.exit
node_type_from_proto _ = err invalid_node_type

unfoldable pub public_key_from_proto : List ℕ → Result Status (List ℕ)
public_key_from_proto bytes = if length bytes == 32 then ok bytes else err key_size

unfoldable pub ip_to_bytes : IpAddr → List ℕ
ip_to_bytes (v4 n) = octets 4 n
ip_to_bytes (v6 n) = octets 16 n

unfoldable pub ip_from_bytes : List ℕ → Result Status IpAddr
ip_from_bytes bytes =
    if length bytes == 4
    then ok (v4 (from_octets bytes))
    else (if length bytes == 16
        then ok (v6 (from_octets bytes))
        else err (invalid_ip_length (length bytes)))

-- `map(f).collect::<Result<Vec<_>, _>>()`
abbrev pub collect {ℓ κ μ} :
    {E : Type ℓ} {A : Type κ} {B : Type μ} → (A → Result E B) → List A → Result E (List B)
collect f [] = ok []
collect f (x ∷ xs) = f x >>= λ y. collect f xs >>= λ ys. ok (y ∷ ys)

unfoldable pub policy_to_proto : ExitPolicy → ProtoPolicy
policy_to_proto p = record {
  allowed_ports = p.allowed_ports;
  blocked_ports = p.blocked_ports;
  allowed_ips = map ip_to_bytes p.allowed_ips;
  blocked_ips = map ip_to_bytes p.blocked_ips;
}

-- `p as u16` drops what a u32 has above 16 bits.
unfoldable pub policy_from_proto : ProtoPolicy → Result Status ExitPolicy
policy_from_proto p = do
  allowed_ips ← collect ip_from_bytes p.allowed_ips
  blocked_ips ← collect ip_from_bytes p.blocked_ips
  ok (record {
    allowed_ports = map (λ n. n % 65536) p.allowed_ports;
    blocked_ports = map (λ n. n % 65536) p.blocked_ports;
    allowed_ips = allowed_ips;
    blocked_ips = blocked_ips;
  })

unfoldable pub optional_to_proto : Option ExitPolicy → Option ProtoPolicy
optional_to_proto none = none
optional_to_proto (some p) = some (policy_to_proto p)

unfoldable pub optional_from_proto : Option ProtoPolicy → Result Status (Option ExitPolicy)
optional_from_proto none = ok none
optional_from_proto (some p) = policy_from_proto p >>= λ q. ok (some q)

module _ (to_text : SocketAddr → List ℕ) (parse : List ℕ → Option SocketAddr) where
  unfoldable pub descriptor_to_proto : NodeDescriptor → ProtoDescriptor
  unfolding node_type_to_proto optional_to_proto
  descriptor_to_proto d = record {
    node_id = d.node_id;
    node_type = node_type_to_proto d.node_type;
    address = to_text d.address;
    public_key = some d.public_key;
    bandwidth = d.bandwidth;
    exit_policy = optional_to_proto d.exit_policy;
    operator_id = d.operator_id;
    tls_cert_fingerprint = d.tls_cert_fingerprint;
  }

  unfoldable pub descriptor_from_proto : ProtoDescriptor → Result Status NodeDescriptor
  unfolding node_type_from_proto public_key_from_proto optional_from_proto
  descriptor_from_proto d = do
    node_type ← node_type_from_proto d.node_type
    address ← ok_or (parse d.address) invalid_address
    key ← ok_or d.public_key key_required
    public_key ← public_key_from_proto key
    exit_policy ← optional_from_proto d.exit_policy
    ok (record {
      node_id = d.node_id;
      node_type = node_type;
      address = address;
      public_key = public_key;
      bandwidth = d.bandwidth;
      exit_policy = exit_policy;
      operator_id = d.operator_id;
      tls_cert_fingerprint = d.tls_cert_fingerprint;
    })
