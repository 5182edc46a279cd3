-- ===== src/Tests/Proto.antt =====
-- A text for addresses, and descriptors that go through the service.
use nopanic.Prelude.{
  ℕ, zero, suc, ◌≡◌, refl, List, [], ◌∷◌, Option, none, some, false, ok, replicate, arith,
}
use nopanic.Discovery.{SocketAddr, NodeDescriptor, NodeType, IpAddr, v4, v6}
use nopanic.Discovery.Policy.{default_policy}
use nopanic.Discovery.Registry.{new_registry}
use nopanic.Proto.{descriptor_to_proto, descriptor_from_proto}
use nopanic.Proto.Descriptors.{descriptor_from_proto-descriptor_to_proto, IsDescriptor}
use nopanic.Discovery.Service.Served.{
  Request, register, remove, heartbeat, clean_up, serve_all, Sound, serve_all-Sound,
}

-- Stands for the text: the kind of address, the address, the port and the scope. As the text of the
-- standard library it leaves out the flow information.
abbrev text_of : IpAddr → ℕ → ℕ → List ℕ
text_of (v4 n) port scope = 0 ∷ n ∷ port ∷ []
text_of (v6 n) port scope = 1 ∷ n ∷ port ∷ scope ∷ []

abbrev to_text : SocketAddr → List ℕ
to_text a = text_of a.ip a.port a.scope_id

abbrev parse : List ℕ → Option SocketAddr
parse (zero ∷ n ∷ p ∷ []) = some (record { ip = v4 n; port = p; flowinfo = 0; scope_id = 0 })
parse (suc zero ∷ n ∷ p ∷ s ∷ []) =
    some (record { ip = v6 n; port = p; flowinfo = 0; scope_id = s })
parse _ = none

abbrev described : NodeDescriptor
described = record {
  node_id = 101 ∷ 49 ∷ [];
  node_type = NodeType.exit;
  address = record { ip = v4 3405803781; port = 9003; flowinfo = 0; scope_id = 0 };
  public_key = replicate 32 7;
  bandwidth = 5000;
  exit_policy = some default_policy;
  operator_id = some (99 ∷ []);
  tls_cert_fingerprint = 1 ∷ 2 ∷ [];
}

described-IsDescriptor : IsDescriptor described
unfolding default_policy
described-IsDescriptor = record {
  key = refl;
  policy = record {
    allowed_ports = (omega arith, (omega arith, (omega arith, (omega arith, tt))));
    blocked_ports = (omega arith, (omega arith, (omega arith, tt)));
    allowed_ips = tt;
    blocked_ips = tt;
  };
}

descriptor_from_proto-descriptor_to_proto_example :
    descriptor_from_proto to_text parse (descriptor_to_proto to_text parse described) ≡ ok described
descriptor_from_proto-descriptor_to_proto_example =
    descriptor_from_proto-descriptor_to_proto to_text parse described refl described-IsDescriptor

abbrev requests : List Request
requests =
    register 1 (descriptor_to_proto to_text parse described)
    ∷ register 2 (record (descriptor_to_proto to_text parse described) { bandwidth = 0 })
    ∷ heartbeat 3 (101 ∷ 49 ∷ []) none
    ∷ clean_up 4 10
    ∷ remove (120 ∷ [])
    ∷ []

serve_all-Sound_example : Sound (serve_all to_text parse requests (new_registry false))
serve_all-Sound_example = serve_all-Sound to_text parse requests false
