-- ===== src/Client/Pool/Monitor/Start.antt =====
-- What `initialize` makes of a pool.
use nopanic.Prelude.{
  ℕ, suc, zero, ◌+◌, ◌<◌, ◌≡◌, refl, ap, ◌∙◌, List, [], ◌∷◌, map, ◌&&◌, Option, ◌==◌, Result, err,
  some, ok, find, insert, find-insert, leb, ltb, if◌then◌else◌, arith, ◌%◌, ◌>>=◌,
}
use nopanic.Protocol.Wire.{Reader}
use nopanic.Crypto.Library.{Crypto}
use nopanic.Client.Circuit.{Circuit}
use nopanic.Client.Pool.{BuildError, CircuitPool, Builds, allocate_circuit_id, build_circuit}
use nopanic.Client.Pool.Monitor.{build_circuits, initialize}

abbrev pub upto : ℕ → ℕ → List ℕ
upto first zero = []
upto first (suc n) = first ∷ upto (first + 1) n

one_more {ℓ} :
    {A : Type ℓ} (first n k : ℕ) (f : ℕ → A) (old new : Option A)
    → new ≡ (if first == k then some (f first) else old)
    → (if leb (first + 1) k && ltb k (first + 1 + n) then some (f k) else new)
      ≡ (if leb first k && ltb k (first + suc n) then some (f k) else old)
one_more first n k f old new h = ground (arith, h)

module _ (lib : Crypto) (builds : Builds lib) (now : ℕ) (circuit_of : ℕ → Circuit lib)
    (reader_of : ℕ → Reader) where
  -- The ids are those that follow, and each stands for the circuit that was built for it.
  abbrev pub Filled : ℕ → CircuitPool lib → Type 0
  Filled n p =
      let (built, p') = build_circuits lib builds now n p in
      (built ≡ ok (map (λ k. (k, reader_of k)) (upto p.next_circuit_id n)))
      × ((k : ℕ)
          → find k p'.circuits ≡ (
              if leb p.next_circuit_id k && ltb k (p.next_circuit_id + n)
              then some (circuit_of k)
              else find k p.circuits))

  -- The pool after the first of them.
  abbrev after : CircuitPool lib → CircuitPool lib
  after p = record p {
    next_circuit_id = p.next_circuit_id + 1;
    circuits = insert p.next_circuit_id (circuit_of p.next_circuit_id) p.circuits;
    circuit_ages = insert p.next_circuit_id now p.circuit_ages;
  }

  built_first :
      (p : CircuitPool lib)
      → p.next_circuit_id + 1 < 4294967296
      → ((k : ℕ) → builds k p.hop_count ≡ ok (circuit_of k, reader_of k))
      → build_circuit lib builds now p
        ≡ (ok (p.next_circuit_id, reader_of p.next_circuit_id), after p)
  unfolding build_circuit allocate_circuit_id
  built_first p room all =
      let next : (p.next_circuit_id + 1) % 4294967296 ≡ p.next_circuit_id + 1 = omega arith in
      rw (all p.next_circuit_id, next) refl

  abbrev Built : Type 0
  Built = Result BuildError (List (ℕ × Reader)) × CircuitPool lib

  abbrev prepend : ℕ → Built → Built
  prepend first (rest, p) = (rest >>= λ readers. ok ((first, reader_of first) ∷ readers), p)

  build_circuits-first :
      (n : ℕ) (p : CircuitPool lib)
      → p.next_circuit_id + 1 < 4294967296
      → ((k : ℕ) → builds k p.hop_count ≡ ok (circuit_of k, reader_of k))
      → build_circuits lib builds now (suc n) p
        ≡ prepend p.next_circuit_id (build_circuits lib builds now n (after p))
  unfolding build_circuits
  build_circuits-first n p room all = ap resume (built_first p room all)
    where
      resume : Result BuildError (ℕ × Reader) × CircuitPool lib → Built
      resume (built, p') = elim built [
        | err e ↦ (err e, p')
        | ok first ↦
            let (rest, p'') = build_circuits lib builds now n p' in
            (rest >>= λ readers. ok (first ∷ readers), p'')
      ]

  build_circuits-Filled :
      (n : ℕ) (p : CircuitPool lib)
      → p.next_circuit_id + n < 4294967296
      → ((k : ℕ) → builds k p.hop_count ≡ ok (circuit_of k, reader_of k))
      → Filled n p
  unfolding build_circuits
  build_circuits-Filled zero p room all = (refl, λ k. ground arith)
  build_circuits-Filled (suc n) p room all =
      let first : ℕ = p.next_circuit_id in
      let p' : CircuitPool lib = after p in
      let (rest, found) = build_circuits-Filled n p' (omega arith) all in
      rw (build_circuits-first n p (omega arith) all, rest)
        (
          refl,
          λ k.
              found k
              ∙ one_more first n k circuit_of (find k p.circuits) _
                  (find-insert first k (circuit_of first) p.circuits),
        )

  -- Where every circuit can be built and the ids do not wrap round, `initialize` gives the circuits
  -- of the next `pool_size` ids in their order, each is in the pool under its id, and what was under
  -- another id is as before.
  pub initialize-Filled :
      (p : CircuitPool lib)
      → p.next_circuit_id + p.pool_size < 4294967296
      → ((k : ℕ) → builds k p.hop_count ≡ ok (circuit_of k, reader_of k))
      → ((initialize lib builds now p).0
          ≡ ok (map (λ k. (k, reader_of k)) (upto p.next_circuit_id p.pool_size)))
        × ((k : ℕ)
            → find k (initialize lib builds now p).1.circuits ≡ (
                if leb p.next_circuit_id k && ltb k (p.next_circuit_id + p.pool_size)
                then some (circuit_of k)
                else find k p.circuits))
  unfolding initialize
  initialize-Filled p room all = build_circuits-Filled p.pool_size p room all
