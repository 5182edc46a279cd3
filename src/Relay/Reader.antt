-- ===== src/Relay/Reader.antt =====
-- services/relay-node/src/circuit/entry.rs and middle.rs: `spawn_nexthop_reader`, the task that brings
-- a circuit's cells back from the next hop. Only the entry relay's task answers a DESTROY itself.
-- Other tasks share the registry and the connection to the previous hop: what they do between two
-- rounds is an argument. What they do within a round, between its locks, is taken before it.
pub mod Stops
use nopanic.Prelude.{
  ℕ, zero, suc, List, [], ◌∷◌, Bool, true, false, not, ◌&&◌, Option, none, some, Result, ok, err,
  if◌then◌else◌,
}
use nopanic.Error.{TorError}
use nopanic.Protocol.{Message, command_eq, destroy}
use nopanic.Protocol.Messages
use nopanic.Protocol.Wire.{Reader, Writer, IoError, from_stream, write_to_stream}
use nopanic.Crypto.Library.{Crypto}
use nopanic.Relay.Context.{World, HandlerError, NextHop}
use nopanic.Relay.Handler.{
  CircuitHandler, entry, middle, exit, CircuitRegistry, registry_handle_backward_message,
}

-- `NextHop::take_read`
abbrev pub take_read : Option NextHop → Option Reader × Option NextHop
take_read none = (none, none)
take_read (some hop) = (hop.read, some (record hop { read = none }))

-- `AsyncWriteExt::shutdown`: nothing is written any more.
abbrev pub shutdown : Writer → Writer
shutdown w = record w { broken = true }

-- How a round ends: the loop goes on, or breaks with its flag `destroy_sent`, which the middle
-- relay's task does not have and never sets.
pub data Turn : Type 0 where
  goes_on : Turn
  breaks : Bool → Turn

module _ (lib : Crypto) where
  -- The read half that the task of a handler gets, and the handler without it.
  unfoldable pub nexthop_reader : CircuitHandler lib → Option Reader × CircuitHandler lib
  nexthop_reader (entry h) =
      let (reader, hop) = take_read h.next_hop in (reader, entry (record h { next_hop = hop }))
  nexthop_reader (middle h) =
      let (reader, hop) = take_read h.next_hop in (reader, middle (record h { next_hop = hop }))
  nexthop_reader (exit h) = (none, exit h)

  -- What the task shares with the rest of the relay.
  pub record Task : Type 0 where
    pub registry : CircuitRegistry lib
    pub prev_hop_write : Writer

  -- What a round finds: its randomness, and what other tasks have done since the round before.
  pub record Moment : Type 0 where
    pub world : World
    pub others : Task → Task

  -- The answer of the registry to a cell.
  abbrev pub pass_on :
      World → Task → Result HandlerError (Option Message) × CircuitRegistry lib → Turn × Task
  pass_on world t (err e, registry) = (breaks false, record t { registry = registry })
  pass_on world t (ok none, registry) = (goes_on, record t { registry = registry })
  pass_on world t (ok (some response), registry) =
      let (sent, write) = write_to_stream world.rng response t.prev_hop_write in
      (
        elim sent [ err e ↦ breaks false | ok _ ↦ goes_on ],
        record t { registry = registry; prev_hop_write = write },
      )

  -- DESTROY to the previous hop, whose error is ignored, and the end of what is written to it.
  unfoldable pub send_destroy : World → ℕ → Task → Task
  send_destroy world circuit_id t = record t {
    prev_hop_write =
        shutdown (write_to_stream world.rng (Messages.destroy circuit_id) t.prev_hop_write).1;
  }

  -- One round of the loop, on what was read from the next hop.
  unfoldable pub backward_round :
      Bool → World → ℕ → Task → Result IoError (Option Message) → Turn × Task
  unfolding send_destroy
  backward_round is_entry world circuit_id t (err e) = (breaks false, t)
  backward_round is_entry world circuit_id t (ok none) = (breaks false, t)
  backward_round is_entry world circuit_id t (ok (some m)) =
      if is_entry && command_eq m.command destroy
      then (breaks true, send_destroy world circuit_id t)
      else pass_on world t (registry_handle_backward_message lib t.registry m)

  -- What stands behind the loop.
  unfoldable pub finish : World → ℕ → Bool → Task → Task
  unfolding send_destroy
  finish world circuit_id destroy_sent t =
      if destroy_sent then t else send_destroy world circuit_id t

  -- The loop, over what each round finds and with fuel for the rounds; `none` where it runs out.
  unfoldable pub run_reader : Bool → (ℕ → Moment) → ℕ → ℕ → Reader → Task → Option Task
  unfolding backward_round finish
  run_reader is_entry moments circuit_id zero reader t = none
  run_reader is_entry moments circuit_id (suc fuel) reader t =
      let world = (moments fuel).world in
      let (read, reader') = from_stream reader in
      let (turn, t') = backward_round is_entry world circuit_id ((moments fuel).others t) read in
      let rest = run_reader is_entry moments circuit_id fuel reader' t' in
      elim turn [
        | goes_on ↦ rest
        | breaks destroy_sent ↦ some (finish world circuit_id destroy_sent t')
      ]
