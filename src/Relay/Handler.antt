-- ===== src/Relay/Handler.antt =====
-- services/relay-node/src/circuit/handler.rs: the three handlers as one, and the registry of the
-- circuits of a relay.
use nopanic.Prelude.{
  ℕ, ◌+◌, ◌%◌, find, insert, remove, List, [], map, Option, none, some, Result, ok, err, length,
  if◌then◌else◌,
}
use nopanic.Protocol.{Message, command_eq, create}
use nopanic.Protocol.Wire.{Writer}
use nopanic.Crypto.Library.{Crypto}
use nopanic.Crypto.{SessionKey}
use nopanic.Relay.Context.{HandlerError, circuit_not_found, World, CircuitState}
use nopanic.Relay.Entry
use nopanic.Relay.Middle
use nopanic.Relay.Exit

module _ (lib : Crypto) where
  pub data CircuitHandler : Type 0 where
    entry : Entry.EntryHandler lib → CircuitHandler
    middle : Middle.MiddleHandler lib → CircuitHandler
    exit : Exit.ExitHandler lib → CircuitHandler

  -- The result, the handler that is left, and the previous hop's writer.
  abbrev pub Handled : Type 0
  Handled = Result HandlerError (Option Message) × CircuitHandler × Option Writer

  unfoldable pub handle_message : World → CircuitHandler → Message → Option Writer → Handled
  handle_message world (entry h) m w =
      let (result, h') = Entry.handle_message lib world h m in (result, entry h', w)
  handle_message world (middle h) m w =
      let (result, h') = Middle.handle_message lib world h m in (result, middle h', w)
  handle_message world (exit h) m w =
      let ((result, h'), w') = Exit.handle_message lib world h m w in (result, exit h', w')

  unfoldable pub handle_backward_relay :
      CircuitHandler → Message → Result HandlerError (Option Message) × CircuitHandler
  handle_backward_relay (entry h) m =
      let (result, h') = Entry.handle_backward_relay lib h m in (result, entry h')
  handle_backward_relay (middle h) m =
      let (result, h') = Middle.handle_backward_relay lib h m in (result, middle h')
  handle_backward_relay (exit h) m = (ok (some m), exit h)

  -- `circuit_id`
  abbrev pub own_id : CircuitHandler → ℕ
  own_id (entry h) = h.context.circuit_id
  own_id (middle h) = h.context.circuit_id
  own_id (exit h) = h.context.circuit_id

  unfoldable pub state : CircuitHandler → CircuitState
  state (entry h) = h.context.state
  state (middle h) = h.context.state
  state (exit h) = h.context.state

  unfoldable pub session_key : CircuitHandler → Option SessionKey
  session_key (entry h) = h.context.session_key
  session_key (middle h) = h.context.session_key
  session_key (exit h) = h.context.session_key

  unfoldable pub close : CircuitHandler → CircuitHandler
  close (entry h) = entry (Entry.close lib h)
  close (middle h) = middle (Middle.close lib h)
  close (exit h) = exit (Exit.close lib h)

  -- `CircuitRegistry`: one for all connections of a relay, keyed by the circuit ids that the peers
  -- chose.
  pub record CircuitRegistry : Type 0 where
    pub circuits : List (ℕ × CircuitHandler)
    pub next_circuit_id : ℕ

  unfoldable pub new_registry : CircuitRegistry
  new_registry = record { circuits = []; next_circuit_id = 1 }

  unfoldable pub allocate_circuit_id : CircuitRegistry → ℕ × CircuitRegistry
  allocate_circuit_id r =
      (r.next_circuit_id, record r { next_circuit_id = (r.next_circuit_id + 1) % 4294967296 })

  unfoldable pub add_circuit : CircuitRegistry → ℕ → CircuitHandler → CircuitRegistry
  add_circuit r circuit_id h = record r { circuits = insert circuit_id h r.circuits }

  unfoldable pub remove_circuit : CircuitRegistry → ℕ → Option CircuitHandler × CircuitRegistry
  remove_circuit r circuit_id =
      (find circuit_id r.circuits, record r { circuits = remove circuit_id r.circuits })

  unfoldable pub circuit_count : CircuitRegistry → ℕ
  circuit_count r = length r.circuits

  unfoldable pub circuit_summaries : CircuitRegistry → List (ℕ × CircuitState)
  unfolding state
  circuit_summaries r = map (λ e. (e.0, state e.1)) r.circuits

  -- `CircuitRegistry::handle_message`
  unfoldable pub registry_handle_message :
      World
      → CircuitRegistry
      → Message
      → Option Writer
      → Result HandlerError (Option Message) × CircuitRegistry × Option Writer
  registry_handle_message world r m w = elim (find m.circuit_id r.circuits) [
    | some h ↦
        let (result, h', w') = handle_message world h m w in
        (result, add_circuit r m.circuit_id h', w')
    | none ↦
        if command_eq m.command create
        then (ok none, r, w)
        else (err (circuit_not_found m.circuit_id), r, w)
  ]

  -- `CircuitRegistry::handle_backward_message`
  unfoldable pub registry_handle_backward_message :
      CircuitRegistry → Message → Result HandlerError (Option Message) × CircuitRegistry
  registry_handle_backward_message r m = elim (find m.circuit_id r.circuits) [
    | some h ↦
        let (result, h') = handle_backward_relay h m in (result, add_circuit r m.circuit_id h')
    | none ↦ (err (circuit_not_found m.circuit_id), r)
  ]
