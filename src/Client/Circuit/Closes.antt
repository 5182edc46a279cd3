-- ===== src/Client/Circuit/Closes.antt =====
-- services/tor-client/src/core/circuit.rs: the reader task of a circuit ends with its connection.
use nopanic.Prelude.{
  ℕ, zero, suc, ◌≡◌, ◌<◌, refl, [], Bool, true, false, not, Option, none, some, Result, ok, err,
  length, Bool-cases, inl, inr, arith,
}
use nopanic.Protocol.{Message, command_eq, destroy}
use nopanic.Protocol.Wire.{Reader, IoError, from_stream}
use nopanic.Protocol.Wire.Progress.{from_stream-shorter}
use nopanic.Crypto.Library.{Crypto}
use nopanic.Client.Circuit.{Circuit, closed, shut, open_backward, read_round, circuit_reader}

module _ (lib : Crypto) where
  -- A closed circuit without streams.
  pub record Gone (c : Circuit lib) : Type 0 where
    pub is_closed : c.state ≡ closed
    pub no_streams : c.stream_senders ≡ []

  abbrev Round : Bool × Circuit lib → Type 0
  Round (true, c) = Unit {0}
  Round (false, c) = Gone c

  shut-Gone : (c : Circuit lib) → Gone (shut lib c)
  shut-Gone c = record { is_closed = refl; no_streams = refl }

  read_round-Round :
      (c : Circuit lib) (read : Result IoError (Option Message)) → Round (read_round lib c read)
  unfolding read_round
  read_round-Round c (err e) = shut-Gone c
  read_round-Round c (ok none) = shut-Gone c
  read_round-Round c (ok (some m)) = elim (Bool-cases (command_eq m.command destroy)) [
    | inl e ↦ rw (e, read_round) (shut-Gone c)
    | inr e ↦
        let (good, plain, c') = open_backward lib c m in
        elim (Bool-cases (not good)) [
          | inl g ↦ rw (e, read_round, g) (shut-Gone c')
          | inr g ↦ rw (e, read_round, g) tt
        ]
  ]

  goes_on-cell :
      (c : Circuit lib) (read : Result IoError (Option Message))
      → (read_round lib c read).0 ≡ true
      → (m : Message) × (read ≡ ok (some m))
  unfolding read_round
  goes_on-cell c (err e) h = absurd (ground (arith, h))
  goes_on-cell c (ok none) h = absurd (ground (arith, h))
  goes_on-cell c (ok (some m)) h = (m, refl)

  stopped-Gone : (r : Bool × Circuit lib) → Round r → r.0 ≡ false → Gone r.1
  stopped-Gone (true, c) g q = absurd (ground (arith, q))
  stopped-Gone (false, c) g q = g

  -- With fuel for every byte that is to come, the reader task of a circuit ends, whatever the entry
  -- relay sends; the circuit is then closed, and the channels of all its streams are dropped.
  pub circuit_reader-Gone :
      (fuel : ℕ) (reader : Reader) (c : Circuit lib)
      → length reader.incoming < fuel
      → (c' : Circuit lib) × (circuit_reader lib fuel reader c ≡ some c') × Gone c'
  unfolding circuit_reader
  circuit_reader-Gone zero reader c enough = absurd (omega arith)
  circuit_reader-Gone (suc fuel) reader c enough =
      let read = (from_stream reader).0 in
      let round = read_round lib c read in
      elim (Bool-cases round.0) [
        | inl q ↦
            let (m, cell) = goes_on-cell c read q in
            rw q (
              circuit_reader-Gone fuel (from_stream reader).1 round.1
                (omega (arith, from_stream-shorter reader m cell)))
        | inr q ↦ rw q (round.1, refl, stopped-Gone round (read_round-Round c read) q)
      ]
