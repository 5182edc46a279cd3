-- ===== src/Discovery/Policy/Permits.antt =====
-- What an exit policy lets through.
use nopanic.Prelude.{
  ℕ, List, [], ◌∷◌, Bool, true, false, not, ◌≡◌, ◌≢◌, ◌↔◌, ◌⊎◌, inl, inr, refl, sym, subst, arith,
  ap, ◌∙◌, Bool-cases, contains, ◌==◌, ==_iff, if◌then◌else◌, ◌&&◌, ◌||◌,
}
use mathlib.Core.HLevel.{⊥_prop}
use mathlib.Core.Logic.Or
use mathlib.Core.List.{Mem, mem-cons_self, mem-cons_of_mem, not-mem-nil, eq-or-mem_of_mem-cons}
use nopanic.Discovery.{ExitPolicy, SocketAddr, IpAddr, ip_eq, ip_eq→eq, ip_eq_refl}
use nopanic.Discovery.Policy.{is_empty, allows}

-- What a search answers, and why.
abbrev Searched {ℓ} : {A : Type ℓ} → Bool → A → List A → Type ℓ
Searched true a xs = Mem a xs
Searched false a xs = ¬ Mem a xs

grow {ℓ} :
    {A : Type ℓ} (b : Bool) (a x : A) (xs : List A)
    → a ≢ x
    → Searched b a xs
    → Searched b a (x ∷ xs)
grow true a x xs ne m = mem-cons_of_mem x m
grow false a x xs ne absent = λ m. Or.elim ⊥_prop (eq-or-mem_of_mem-cons m) ne absent

no_both : (b : Bool) → b ≡ true → b ≡ false → ⊥
no_both b p q = ground (arith, p, q)

contains-Searched {ℓ} :
    {A : Type ℓ} (eq : A → A → Bool)
    → ((x a : A) → eq x a ≡ true → x ≡ a)
    → ((a : A) → eq a a ≡ true)
    → (a : A) (xs : List A) → Searched (contains eq a xs) a xs
unfolding contains
contains-Searched eq sound self a [] = not-mem-nil
contains-Searched eq sound self a (x ∷ xs) = elim (Bool-cases (eq x a)) [
  | inl q ↦ rw q (subst (λ t. Mem a (t ∷ xs)) (sym (sound x a q)) mem-cons_self)
  | inr q ↦ rw q (
      grow (contains eq a xs) a x xs (λ e. no_both (eq x a) (ap (λ t. eq t a) (sym e) ∙ self a) q)
        (contains-Searched eq sound self a xs))
]

-- The four guards of `allows`, from the answers of its searches.
abbrev verdict : Bool → Bool → Bool → Bool → Bool → Bool → Bool
verdict blocked_ip any_ip ip blocked_port any_port port =
    if blocked_ip
    then false
    else (if not any_ip && not ip
        then false
        else (if blocked_port then false else (if any_port then true else port)))

-- An empty list stands for everything.
abbrev pub Covers {ℓ} : {A : Type ℓ} → List A → A → Type ℓ
Covers xs a = (is_empty xs ≡ true) ⊎ Mem a xs

-- Neither the address nor the port is blocked, and both are covered by what is allowed.
abbrev pub Permitted : ExitPolicy → SocketAddr → Type 0
Permitted p addr =
    (¬ Mem addr.ip p.blocked_ips)
    × (¬ Mem addr.port p.blocked_ports)
    × Covers p.allowed_ips addr.ip
    × Covers p.allowed_ports addr.port

absent_of {ℓ} :
    {A : Type ℓ} (b : Bool) (a : A) (xs : List A) → Searched b a xs → b ≡ false → ¬ Mem a xs
absent_of true a xs s e = absurd (ground (arith, e))
absent_of false a xs s e = s

Covers-of {ℓ} :
    {A : Type ℓ} (b : Bool) (a : A) (xs : List A)
    → Searched b a xs
    → (is_empty xs || b) ≡ true
    → Covers xs a
Covers-of b a [] s e = inl refl
Covers-of true a (x ∷ xs) s e = inr s
Covers-of false a (x ∷ xs) s e = absurd (ground (arith, e))

of_absent {ℓ} :
    {A : Type ℓ} (b : Bool) (a : A) (xs : List A) → Searched b a xs → ¬ Mem a xs → b ≡ false
of_absent true a xs s absent = absurd (absent s)
of_absent false a xs s absent = refl

of_Covers {ℓ} :
    {A : Type ℓ} (b : Bool) (a : A) (xs : List A)
    → Searched b a xs
    → Covers xs a
    → (is_empty xs || b) ≡ true
of_Covers b a [] s c = refl
of_Covers true a (x ∷ xs) s c = refl
of_Covers false a (x ∷ xs) s (inl e) = absurd (ground (arith, e))
of_Covers false a (x ∷ xs) s (inr m) = absurd (s m)

verdict-true :
    (bi ei i bp ep p : Bool)
    → verdict bi ei i bp ep p ≡ true
    → (bi ≡ false) × (bp ≡ false) × ((ei || i) ≡ true) × ((ep || p) ≡ true)
verdict-true bi ei i bp ep p h =
    (ground (arith, h), ground (arith, h), ground (arith, h), ground (arith, h))

true-verdict :
    (bi ei i bp ep p : Bool)
    → bi ≡ false
    → bp ≡ false
    → (ei || i) ≡ true
    → (ep || p) ≡ true
    → verdict bi ei i bp ep p ≡ true
true-verdict bi ei i bp ep p h1 h2 h3 h4 = ground (arith, h1, h2, h3, h4)

module _ (p : ExitPolicy) (addr : SocketAddr) where
  search_ip : (xs : List IpAddr) → Searched (contains ip_eq addr.ip xs) addr.ip xs
  search_ip xs = contains-Searched ip_eq ip_eq→eq ip_eq_refl addr.ip xs

  search_port : (xs : List ℕ) → Searched (contains ◌==◌ addr.port xs) addr.port xs
  search_port xs =
      contains-Searched ◌==◌ (λ x a. (==_iff x a).0) (λ a. (==_iff a a).1 refl) addr.port xs

  -- An exit policy allows a destination exactly when neither its address nor its port is blocked,
  -- its address is allowed or no allowed address is listed, and its port is allowed or no allowed
  -- port is listed.
  pub allows-Permitted : (allows p addr ≡ true) ↔ Permitted p addr
  unfolding allows
  allows-Permitted = (
    λ h.
        let (bi, bp, i, port) =
          verdict-true _ _ _ _ (is_empty p.allowed_ports) (contains ◌==◌ addr.port p.allowed_ports)
            h in
        (
          absent_of _ addr.ip p.blocked_ips (search_ip p.blocked_ips) bi,
          absent_of _ addr.port p.blocked_ports (search_port p.blocked_ports) bp,
          Covers-of _ addr.ip p.allowed_ips (search_ip p.allowed_ips) i,
          Covers-of _ addr.port p.allowed_ports (search_port p.allowed_ports) port,
        ),
    λ (bi, bp, i, port).
        true-verdict _ _ _ _ (is_empty p.allowed_ports) (contains ◌==◌ addr.port p.allowed_ports)
          (of_absent _ addr.ip p.blocked_ips (search_ip p.blocked_ips) bi)
          (of_absent _ addr.port p.blocked_ports (search_port p.blocked_ports) bp)
          (of_Covers _ addr.ip p.allowed_ips (search_ip p.allowed_ips) i)
          (of_Covers _ addr.port p.allowed_ports (search_port p.allowed_ports) port),
  )
