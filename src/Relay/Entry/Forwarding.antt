-- ===== src/Relay/Entry/Forwarding.antt =====
-- services/relay-node/src/circuit/entry.rs: a cell that is sent on, as an equation of states.
use nopanic.Prelude.{ℕ, ◌≡◌, ◌++◌, ◌∙◌, refl, ap, List, false, none, some, ok}
use nopanic.Protocol.{Message, MessageCommand}
use nopanic.Protocol.Codec.{to_bytes}
use nopanic.Protocol.Messages.{new}
use nopanic.Protocol.Wire.Framing.{Fits, write_to_stream-Fits}
use nopanic.Crypto.Library.{Crypto}
use nopanic.Crypto.{CipherPair, apply_forward}
use nopanic.Relay.Context.{
  World, NextHop, Relayed, relayed_data, relayed_begin, relayed_end, relayed_connected,
  relayed_extend,
}
use nopanic.Relay.Entry.{
  EntryHandler, with_pair, Handled, handle_extend, handle_relay, extend_or_relay, dispatch,
  handle_message,
}

module _ (lib : Crypto) (world : World) where
  dispatch-Relayed :
      (command : MessageCommand) (h : EntryHandler lib) (hop : NextHop) (m : Message)
      → Relayed command
      → h.next_hop ≡ some hop
      → dispatch lib command world h m ≡ handle_relay lib world h m
  unfolding dispatch extend_or_relay
  dispatch-Relayed _ h hop m relayed_data n = refl
  dispatch-Relayed _ h hop m relayed_begin n = refl
  dispatch-Relayed _ h hop m relayed_end n = refl
  dispatch-Relayed _ h hop m relayed_connected n = refl
  dispatch-Relayed _ h hop m relayed_extend n =
      ap
        (λ o. elim o as (λ x. Handled lib) [
          | none ↦ handle_extend lib world h m
          | some next ↦ handle_relay lib world h m
        ])
        n

  handle_relay_lem :
      (h : EntryHandler lib) (pair : CipherPair lib) (hop : NextHop) (bytes : List ℕ) (m : Message)
      → h.context.cipher_pair ≡ some pair
      → h.next_hop ≡ some hop
      → hop.write ≡ record { written = bytes; broken = false }
      → (let (plain, pair') = apply_forward lib pair m.payload in
          let forward = record m { payload = plain } in
          Fits forward
          → handle_relay lib world h m ≡ (
            ok none,
            record (with_pair lib h pair') {
              next_hop = some (record hop {
                write = record { written = bytes ++ to_bytes world.rng forward; broken = false };
              });
            },
          ))
  unfolding handle_relay new
  handle_relay_lem h pair hop bytes m e n w fits =
      let (plain, pair') = apply_forward lib pair m.payload in
      rw (
        e,
        n,
        w,
        handle_relay,
        write_to_stream-Fits world.rng (record m { payload = plain }) bytes fits,
      )

  -- A relay that has a next hop writes to it the cell with its layer taken off, all else unchanged.
  pub handle_message-Relayed :
      (h : EntryHandler lib) (pair : CipherPair lib) (hop : NextHop) (bytes : List ℕ) (m : Message)
      → Relayed m.command
      → h.context.cipher_pair ≡ some pair
      → h.next_hop ≡ some hop
      → hop.write ≡ record { written = bytes; broken = false }
      → (let (plain, pair') = apply_forward lib pair m.payload in
          let forward = record m { payload = plain } in
          Fits forward
          → handle_message lib world h m ≡ (
            ok none,
            record (with_pair lib h pair') {
              next_hop = some (record hop {
                write = record { written = bytes ++ to_bytes world.rng forward; broken = false };
              });
            },
          ))
  unfolding handle_message
  handle_message-Relayed h pair hop bytes m r e n w fits =
      dispatch-Relayed m.command h hop m r n ∙ handle_relay_lem h pair hop bytes m e n w fits
