-- ===== src/Proto/Descriptors.antt =====
-- services/proto/src/lib.rs: a descriptor is read back as it was written.
use nopanic.Prelude.{
  ℕ, ◌%◌, ◌<◌, ◌≡◌, refl, ap, List, [], ◌∷◌, map, Option, none, some, ok, length, All, arith,
}
use nopanic.Discovery.{NodeType, IpAddr, v4, v6, SocketAddr, ExitPolicy, NodeDescriptor}
use nopanic.Proto.Octets.{bound, length-octets, from_octets-octets}
use nopanic.Proto.{
  node_type_to_proto, node_type_from_proto, public_key_from_proto, ip_to_bytes, ip_from_bytes,
  collect, policy_to_proto, policy_from_proto, optional_to_proto, optional_from_proto,
  descriptor_to_proto, descriptor_from_proto,
}

-- The numbers of the program's types: octets of an address, ports, 32 bytes of a key.
abbrev pub IsIp : IpAddr → Type 0
IsIp (v4 n) = n < bound 4
IsIp (v6 n) = n < bound 16

abbrev IsPort : ℕ → Type 0
IsPort n = n < 65536

pub record IsPolicy (p : ExitPolicy) : Type 0 where
  pub allowed_ports : All IsPort p.allowed_ports
  pub blocked_ports : All IsPort p.blocked_ports
  pub allowed_ips : All IsIp p.allowed_ips
  pub blocked_ips : All IsIp p.blocked_ips

abbrev IsOptional : Option ExitPolicy → Type 0
IsOptional none = Unit {0}
IsOptional (some p) = IsPolicy p

pub record IsDescriptor (d : NodeDescriptor) : Type 0 where
  pub key : length d.public_key ≡ 32
  pub policy : IsOptional d.exit_policy

node_type_lem : (t : NodeType) → node_type_from_proto (node_type_to_proto t) ≡ ok t
unfolding node_type_from_proto node_type_to_proto
node_type_lem NodeType.entry = refl
node_type_lem NodeType.middle = refl
node_type_lem NodeType.exit = refl

ip_lem : (a : IpAddr) → IsIp a → ip_from_bytes (ip_to_bytes a) ≡ ok a
unfolding ip_from_bytes ip_to_bytes
ip_lem (v4 n) small = rw (length-octets 4 n) (ap (λ t. ok (v4 t)) (from_octets-octets 4 n small))
ip_lem (v6 n) small = rw (length-octets 16 n) (ap (λ t. ok (v6 t)) (from_octets-octets 16 n small))

ips_lem : (ips : List IpAddr) → All IsIp ips → collect ip_from_bytes (map ip_to_bytes ips) ≡ ok ips
ips_lem [] _ = refl
ips_lem (a ∷ ips) (p, ps) = rw (ip_lem a p, ips_lem ips ps)

ports_lem : (ps : List ℕ) → All IsPort ps → map (λ n. n % 65536) ps ≡ ps
ports_lem [] _ = refl
ports_lem (p ∷ ps) (small, smalls) =
    let e : p % 65536 ≡ p = omega arith in λ i. e i ∷ ports_lem ps smalls i

policy_lem : (p : ExitPolicy) → IsPolicy p → policy_from_proto (policy_to_proto p) ≡ ok p
unfolding policy_from_proto policy_to_proto
policy_lem p w = rw (
  ips_lem p.allowed_ips w.allowed_ips,
  ips_lem p.blocked_ips w.blocked_ips,
  ports_lem p.allowed_ports w.allowed_ports,
  ports_lem p.blocked_ports w.blocked_ports,
)

optional_lem :
    (o : Option ExitPolicy) → IsOptional o → optional_from_proto (optional_to_proto o) ≡ ok o
unfolding optional_from_proto optional_to_proto
optional_lem none _ = refl
optional_lem (some p) w = rw (policy_lem p w)

module _ (to_text : SocketAddr → List ℕ) (parse : List ℕ → Option SocketAddr) where
  -- Where the parser of addresses reads the text of the node's address, a descriptor with a key of 32
  -- bytes, and addresses and ports of its policy in range goes over the wire and comes back as it was.
  pub descriptor_from_proto-descriptor_to_proto :
      (d : NodeDescriptor)
      → parse (to_text d.address) ≡ some d.address
      → IsDescriptor d
      → descriptor_from_proto to_text parse (descriptor_to_proto to_text parse d) ≡ ok d
  unfolding descriptor_from_proto descriptor_to_proto public_key_from_proto
  descriptor_from_proto-descriptor_to_proto d reads w =
      let key = w.key in
      rw (node_type_lem d.node_type, reads, key, optional_lem d.exit_policy w.policy)
