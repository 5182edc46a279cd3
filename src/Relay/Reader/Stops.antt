-- ===== src/Relay/Reader/Stops.antt =====
-- The reader task of a relay ends with its connection, and tells the previous hop.
use nopanic.Prelude.{
  ℕ, zero, suc, ◌≡◌, ◌⊎◌, ◌<◌, ◌∙◌, refl, sym, ap, subst, Bool, true, false, ◌&&◌, Option, none,
  some, Result, ok, err, length, Bool-cases, inl, inr, arith, List, [], ◌∷◌, ◌++◌, append_assoc,
  append-nil, ltb,
}
use nopanic.Error.{TorError}
use nopanic.Protocol.{Message, command_eq, destroy, max_payload_size}
use nopanic.Protocol.Messages
use nopanic.Protocol.Codec.{to_bytes}
use nopanic.Protocol.Wire.{Reader, Writer, IoError, from_stream, write_to_stream}
use nopanic.Protocol.Wire.Progress.{from_stream-shorter}
use nopanic.Crypto.Library.{Crypto}
use nopanic.Relay.Context.{World, HandlerError}
use nopanic.Relay.Handler.{CircuitRegistry, registry_handle_backward_message}
use nopanic.Relay.Reader.{
  Task, Moment, Turn, goes_on, breaks, pass_on, send_destroy, backward_round, finish, run_reader,
}

-- The bytes of cells, each with its own random padding.
abbrev pub padded : List ((ℕ → ℕ) × Message) → List ℕ
padded [] = []
padded ((rng, m) ∷ rest) = to_bytes rng m ++ padded rest

-- A writer that works has been given some cells since `before`.
abbrev pub Wrote : List ℕ → Writer → Type 0
Wrote before w =
    (sent : List ((ℕ → ℕ) × Message)) × (w
      ≡ record { written = before ++ padded sent; broken = false })

padded-append : (xs ys : List ((ℕ → ℕ) × Message)) → padded (xs ++ ys) ≡ padded xs ++ padded ys
padded-append [] ys = refl
padded-append ((rng, m) ∷ xs) ys =
    rw (padded-append xs ys) (sym (append_assoc (to_bytes rng m) (padded xs) (padded ys)))

Wrote-then :
    (before : List ℕ) (sent more : List ((ℕ → ℕ) × Message)) (w : Writer)
    → w ≡ record { written = (before ++ padded sent) ++ padded more; broken = false }
    → Wrote before w
Wrote-then before sent more w e = (
  sent ++ more,
  e
      ∙ ap (λ t. record { written = t; broken = false })
          (append_assoc before (padded sent) (padded more)
            ∙ ap (λ t. before ++ t) (sym (padded-append sent more))),
)

write_to_stream-Wrote :
    (rng : ℕ → ℕ) (before : List ℕ) (w : Writer) (m : Message)
    → Wrote before w
    → Wrote before (write_to_stream rng m w).1
unfolding write_to_stream
write_to_stream-Wrote rng before w m (sent, e) =
    elim (Bool-cases (ltb max_payload_size (length m.payload))) [
      | inl big ↦ rw big (sent, e)
      | inr fits ↦
          rw (fits, e)
            (Wrote-then before sent ((rng, m) ∷ []) _ (
              ap (λ t. record { written = (before ++ padded sent) ++ t; broken = false })
                (sym (append-nil (to_bytes rng m)))))
    ]

Turn-cases : (u : Turn) → (u ≡ goes_on) ⊎ ((b : Bool) × (u ≡ breaks b))
Turn-cases goes_on = inl refl
Turn-cases (breaks b) = inr (b, refl)

module _ (lib : Crypto) (circuit_id : ℕ) (before : List ℕ) where
  -- After what was written before the task, the previous hop has been sent some cells, and as the
  -- last of them DESTROY for the circuit; the connection to it is shut.
  pub record Shut (t : Task lib) : Type 0 where
    pub told :
        (passed : List ((ℕ → ℕ) × Message)) × (rng : ℕ → ℕ) × (t.prev_hop_write.written
          ≡ before ++ (padded passed ++ to_bytes rng (Messages.destroy circuit_id)))
    pub closed : t.prev_hop_write.broken ≡ true

  abbrev Running : Task lib → Type 0
  Running t = Wrote before t.prev_hop_write

  others-Running :
      (moment : Moment lib) (t : Task lib)
      → (t.prev_hop_write.broken ≡ false
          → Wrote t.prev_hop_write.written (moment.others t).prev_hop_write)
      → Running t
      → Running (moment.others t)
  others-Running moment t whole (sent, e) =
      let (more, f) = whole (ap (λ w. w.broken) e) in
      Wrote-then before sent more (moment.others t).prev_hop_write
        (f ∙ ap (λ w. record { written = w.written ++ padded more; broken = false }) e)

  module _ (is_entry : Bool) (world : World) where
    abbrev After : Turn × Task lib → Type 0
    After (goes_on, t) = Running t
    After (breaks destroy_sent, t) = Shut (finish lib world circuit_id destroy_sent t)

    send_destroy-Shut : (t : Task lib) → Running t → Shut (send_destroy lib world circuit_id t)
    unfolding send_destroy write_to_stream Messages.destroy Messages.circuit Messages.new
    send_destroy-Shut t (passed, e) =
        rw (send_destroy, e)
          (record {
            told = (
              passed,
              world.rng,
              append_assoc before (padded passed)
                  (to_bytes world.rng (Messages.destroy circuit_id)),
            );
            closed = refl;
          })

    finish-Shut : (t : Task lib) → Running t → Shut (finish lib world circuit_id false t)
    unfolding finish
    finish-Shut t running = send_destroy-Shut t running

    written-After :
        (t : Task lib) (sent : Result TorError (Unit {0}))
        → Running t
        → After (elim sent [ err e ↦ breaks false | ok _ ↦ goes_on ], t)
    written-After t (ok _) running = running
    written-After t (err x) running = finish-Shut t running

    pass_on-After :
        (t : Task lib) (r : Result HandlerError (Option Message) × CircuitRegistry lib)
        → Running t
        → After (pass_on lib world t r)
    pass_on-After t (err x, registry) running =
        finish-Shut (record t { registry = registry }) running
    pass_on-After t (ok none, registry) running = running
    pass_on-After t (ok (some response), registry) running =
        let (sent, write) = write_to_stream world.rng response t.prev_hop_write in
        written-After (record t { registry = registry; prev_hop_write = write }) sent
          (write_to_stream-Wrote world.rng before t.prev_hop_write response running)

    backward_round-After :
        (t : Task lib) (read : Result IoError (Option Message))
        → Running t
        → After (backward_round lib is_entry world circuit_id t read)
    unfolding backward_round finish
    backward_round-After t (err x) running = finish-Shut t running
    backward_round-After t (ok none) running = finish-Shut t running
    backward_round-After t (ok (some m)) running =
        elim (Bool-cases (is_entry && command_eq m.command destroy)) [
          | inl q ↦ rw (backward_round, q) (send_destroy-Shut t running)
          | inr q ↦
              rw (backward_round, q)
                (pass_on-After t (registry_handle_backward_message lib t.registry m) running)
        ]

    -- The loop goes on only behind a cell.
    goes_on-cell :
        (t : Task lib) (read : Result IoError (Option Message))
        → (backward_round lib is_entry world circuit_id t read).0 ≡ goes_on
        → (m : Message) × (read ≡ ok (some m))
    unfolding backward_round
    goes_on-cell t (err x) h = cc
    goes_on-cell t (ok none) h = cc
    goes_on-cell t (ok (some m)) h = (m, refl)

    After-going : (r : Turn × Task lib) → After r → r.0 ≡ goes_on → Running r.1
    After-going (turn, t) after q = subst (λ u. After (u, t)) q after

    After-stopped :
        (r : Turn × Task lib) (b : Bool)
        → After r
        → r.0 ≡ breaks b
        → Shut (finish lib world circuit_id b r.1)
    After-stopped (turn, t) b after q = subst (λ u. After (u, t)) q after

  run_Running :
      (is_entry : Bool) (moments : ℕ → Moment lib) (fuel : ℕ) (reader : Reader) (t : Task lib)
      → ((n : ℕ) (u : Task lib)
          → u.prev_hop_write.broken ≡ false
          → Wrote u.prev_hop_write.written ((moments n).others u).prev_hop_write)
      → length reader.incoming < fuel
      → Running t
      → (t' : Task lib) × (run_reader lib is_entry moments circuit_id fuel reader t ≡ some t')
        × Shut t'
  unfolding run_reader
  run_Running is_entry moments zero reader t whole enough running = absurd (omega arith)
  run_Running is_entry moments (suc fuel) reader t whole enough running =
      let world = (moments fuel).world in
      let read = (from_stream reader).0 in
      let here = (moments fuel).others t in
      let round = backward_round lib is_entry world circuit_id here read in
      let after =
        backward_round-After is_entry world here read
          (others-Running (moments fuel) t (whole fuel t) running) in
      elim (Turn-cases round.0) [
        | inl q ↦
            let (m, cell) = goes_on-cell is_entry world here read q in
            rw (run_reader, q)
              (run_Running is_entry moments fuel (from_stream reader).1 round.1 whole
                (omega (arith, from_stream-shorter reader m cell))
                (After-going is_entry world round after q))
        | inr (b, q) ↦
            rw (run_reader, q)
              (
                finish lib world circuit_id b round.1,
                refl,
                After-stopped is_entry world round b after q,
              )
      ]

-- With fuel for every byte that is to come from the next hop, the task ends, whatever comes. Where
-- the connection to the previous hop works at first, and other tasks only write whole cells to it,
-- what was written to it is cells and then, as the last of them, DESTROY for the circuit; and it is
-- shut.
pub run_reader-Shut :
    (lib : Crypto) (is_entry : Bool) (moments : ℕ → Moment lib) (circuit_id fuel : ℕ)
    (reader : Reader) (t : Task lib)
    → ((n : ℕ) (u : Task lib)
        → u.prev_hop_write.broken ≡ false
        → Wrote u.prev_hop_write.written ((moments n).others u).prev_hop_write)
    → length reader.incoming < fuel
    → t.prev_hop_write.broken ≡ false
    → (t' : Task lib) × (run_reader lib is_entry moments circuit_id fuel reader t ≡ some t')
      × Shut lib circuit_id t.prev_hop_write.written t'
run_reader-Shut lib is_entry moments circuit_id fuel reader t whole enough works =
    run_Running lib circuit_id t.prev_hop_write.written is_entry moments fuel reader t whole enough
      (let before = sym (append-nil t.prev_hop_write.written) in
        ([], λ i. record { written = before i; broken = works i }))
