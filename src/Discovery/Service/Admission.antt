-- ===== src/Discovery/Service/Admission.antt =====
-- services/discovery/src/api/grpc.rs: what a request has to be to enter the registry.
use nopanic.Prelude.{
  ℕ, ◌%◌, ◌<◌, ◌≡◌, ◌∙◌, refl, ap, sym, subst, List, [], ◌∷◌, map, Option, none, some, Result, ok,
  err, ok-inj, err-ne-ok, length, ◌==◌, ==_iff, if◌then◌else◌, Bool-cases, inl, inr, arith, All,
  ◌>>=◌, ok_or,
}
use nopanic.Proto.{
  Status, ProtoDescriptor, ProtoPolicy, node_type_from_proto, public_key_from_proto,
  policy_from_proto, optional_from_proto, descriptor_from_proto, collect, ip_from_bytes,
}
use nopanic.Discovery.{SocketAddr, NodeDescriptor, NodeType, IpAddr, ExitPolicy}

abbrev pub Ports : List ℕ → Type 0
Ports ports = All (λ n. n < 65536) ports

abbrev pub PolicyPorts : Option ExitPolicy → Type 0
PolicyPorts none = Unit {0}
PolicyPorts (some p) = Ports p.allowed_ports × Ports p.blocked_ports

cut-Ports : (ports : List ℕ) → Ports (map (λ n. n % 65536) ports)
cut-Ports [] = tt
cut-Ports (p ∷ ps) = (omega arith, cut-Ports ps)

policy-Ports_of :
    (p : ProtoPolicy) (allowed blocked : Result Status (List IpAddr)) (q : ExitPolicy)
    → (allowed >>= λ allowed_ips. blocked >>= λ blocked_ips. ok (record {
      allowed_ports = map (λ n. n % 65536) p.allowed_ports;
      blocked_ports = map (λ n. n % 65536) p.blocked_ports;
      allowed_ips = allowed_ips;
      blocked_ips = blocked_ips;
    }))
      ≡ ok q
    → Ports q.allowed_ports × Ports q.blocked_ports
policy-Ports_of p (ok allowed) (ok blocked) q h =
    subst (λ t. Ports t.allowed_ports × Ports t.blocked_ports) (ok-inj h)
      (cut-Ports p.allowed_ports, cut-Ports p.blocked_ports)
policy-Ports_of p (ok allowed) (err e) q h = absurd (err-ne-ok h)
policy-Ports_of p (err e) blocked q h = absurd (err-ne-ok h)

optional-Ports_of :
    (m : Result Status ExitPolicy) (q : Option ExitPolicy)
    → ((p : ExitPolicy) → m ≡ ok p → Ports p.allowed_ports × Ports p.blocked_ports)
    → (m >>= λ p. ok (some p)) ≡ ok q
    → PolicyPorts q
optional-Ports_of (ok p) q sound h = subst PolicyPorts (ok-inj h) (sound p refl)
optional-Ports_of (err e) q sound h = absurd (err-ne-ok h)

optional-PolicyPorts :
    (o : Option ProtoPolicy) (q : Option ExitPolicy) → optional_from_proto o ≡ ok q → PolicyPorts q
unfolding optional_from_proto policy_from_proto
optional-PolicyPorts none q h = subst PolicyPorts (ok-inj h) tt
optional-PolicyPorts (some p) q h =
    optional-Ports_of (policy_from_proto p) q
      (policy-Ports_of p (collect ip_from_bytes p.allowed_ips)
        (collect ip_from_bytes p.blocked_ips))
      h

key-size : (bytes key : List ℕ) → public_key_from_proto bytes ≡ ok key → length key ≡ 32
unfolding public_key_from_proto
key-size bytes key h = elim (Bool-cases (length bytes == 32)) [
  | inl e ↦
      ap length
        (sym (ok-inj (subst (λ t. (if t then ok bytes else err Status.key_size) ≡ ok key) e h)))
      ∙ (==_iff (length bytes) 32).0 e
  | inr e ↦
      absurd (err-ne-ok (subst (λ t. (if t then ok bytes else err Status.key_size) ≡ ok key) e h))
]

-- What a descriptor that a request gives is sure to be.
pub record Sized (d : NodeDescriptor) : Type 0 where
  pub key_size : length d.public_key ≡ 32
  pub ports : PolicyPorts d.exit_policy

module _ (request : ProtoDescriptor) where
  described : NodeType → SocketAddr → List ℕ → Option ExitPolicy → NodeDescriptor
  described t a key policy = record {
    node_id = request.node_id;
    node_type = t;
    address = a;
    public_key = key;
    bandwidth = request.bandwidth;
    exit_policy = policy;
    operator_id = request.operator_id;
    tls_cert_fingerprint = request.tls_cert_fingerprint;
  }

  keyed-Sized :
      (t : NodeType) (a : SocketAddr) (key : Result Status (List ℕ))
      (policy : Result Status (Option ExitPolicy)) (d : NodeDescriptor)
      → ((k : List ℕ) → key ≡ ok k → length k ≡ 32)
      → ((p : Option ExitPolicy) → policy ≡ ok p → PolicyPorts p)
      → (key >>= λ k. policy >>= λ p. ok (described t a k p)) ≡ ok d
      → Sized d
  unfolding described
  keyed-Sized t a (ok k) (ok p) d sized cut h =
      subst Sized (ok-inj h) (record { key_size = sized k refl; ports = cut p refl })
  keyed-Sized t a (ok k) (err e) d sized cut h = absurd (err-ne-ok h)
  keyed-Sized t a (err e) policy d sized cut h = absurd (err-ne-ok h)

  typed-Sized :
      (t : Result Status NodeType) (a : Result Status SocketAddr) (key : Result Status (List ℕ))
      (d : NodeDescriptor)
      → (t >>= λ u. a >>= λ b. key >>= λ bytes. public_key_from_proto bytes >>= λ k.
          optional_from_proto request.exit_policy >>= λ p. ok (described u b k p))
        ≡ ok d
      → Sized d
  typed-Sized (ok t) (ok a) (ok bytes) d h =
      keyed-Sized t a (public_key_from_proto bytes) (optional_from_proto request.exit_policy) d
        (key-size bytes) (optional-PolicyPorts request.exit_policy) h
  typed-Sized (ok t) (ok a) (err e) d h = absurd (err-ne-ok h)
  typed-Sized (ok t) (err e) key d h = absurd (err-ne-ok h)
  typed-Sized (err e) a key d h = absurd (err-ne-ok h)

module _ (to_text : SocketAddr → List ℕ) (parse : List ℕ → Option SocketAddr) where
  pub descriptor_from_proto-Sized :
      (request : ProtoDescriptor) (d : NodeDescriptor)
      → descriptor_from_proto to_text parse request ≡ ok d
      → Sized d
  unfolding descriptor_from_proto described
  descriptor_from_proto-Sized request d h =
      typed-Sized request (node_type_from_proto request.node_type)
        (ok_or (parse request.address) Status.invalid_address)
        (ok_or request.public_key Status.key_required) d h
