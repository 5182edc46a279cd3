-- ===== src/Relay/Entry/Identity.antt =====
-- services/relay-node/src/circuit/entry.rs: no cell changes the circuit id of a handler.
use nopanic.Prelude.{◌≡◌, refl, Result, ok, err, length, ltb, Bool-cases, Option-cases, inl, inr}
use nopanic.Error.{TorError}
use nopanic.Protocol.{Message, MessageCommand}
use nopanic.Protocol.Wire.{Writer}
use nopanic.Crypto.Library.{Crypto}
use nopanic.Crypto.{CipherPair, apply_forward}
use nopanic.Relay.Context.{World, NextHop, HandlerError, activate, close_context}
use nopanic.Relay.Extend.{reach_next}
use nopanic.Relay.Entry.{
  EntryHandler, Handled, handle_create, handle_extend, handle_relay, handle_backward_relay,
  answer_extended, wrote, with_pair, extend_or_relay, close, dispatch, handle_message,
}

module _ (lib : Crypto) (world : World) (h : EntryHandler lib) where
  -- The handler that is left has the same circuit id.
  abbrev Same : Handled lib → Type 0
  Same r = r.1.context.circuit_id ≡ h.context.circuit_id

  handle_create-Same : (m : Message) → Same (handle_create lib world h m)
  unfolding handle_create activate
  handle_create-Same m = elim (Bool-cases (ltb (length m.payload) 32)) [
    | inl e ↦ rw e refl
    | inr e ↦ rw e refl
  ]

  answer_extended-Same :
      (pair : CipherPair lib) (r : Result HandlerError (Message × NextHop))
      → Same (answer_extended lib h pair r)
  unfolding answer_extended
  answer_extended-Same pair (err e) = refl
  answer_extended-Same pair (ok r) = refl

  handle_extend-Same : (m : Message) → Same (handle_extend lib world h m)
  unfolding handle_extend
  handle_extend-Same m = elim (Option-cases h.context.cipher_pair) [
    | inl e ↦ rw (e, handle_extend) refl
    | inr (pair, e) ↦
        let (decrypted, pair') = apply_forward lib pair m.payload in
        rw (e, handle_extend)
          (answer_extended-Same pair' (reach_next world h.context.circuit_id decrypted))
  ]

  wrote-Same :
      (pair : CipherPair lib) (hop : NextHop) (r : Result TorError (Unit {0}) × Writer)
      → Same (wrote lib (with_pair lib h pair) hop r)
  unfolding wrote
  wrote-Same pair hop (err e, w) = refl
  wrote-Same pair hop (ok _, w) = refl

  handle_relay-Same : (m : Message) → Same (handle_relay lib world h m)
  unfolding handle_relay
  handle_relay-Same m = elim (Option-cases h.context.cipher_pair) [
    | inl e ↦ rw (e, handle_relay) refl
    | inr (pair, e) ↦ elim (Option-cases h.next_hop) [
      | inl n ↦ rw (e, handle_relay, n) refl
      | inr (hop, n) ↦
          rw (e, handle_relay, n) (wrote-Same (apply_forward lib pair m.payload).1 hop _)
    ]
  ]

  pub handle_backward_relay-Same : (m : Message) → Same (handle_backward_relay lib h m)
  unfolding handle_backward_relay
  handle_backward_relay-Same m = elim (Option-cases h.context.cipher_pair) [
    | inl e ↦ rw (e, handle_backward_relay) refl
    | inr (pair, e) ↦ rw (e, handle_backward_relay) refl
  ]

  extend_or_relay-Same : (m : Message) → Same (extend_or_relay lib world h m)
  unfolding extend_or_relay
  extend_or_relay-Same m = elim (Option-cases h.next_hop) [
    | inl n ↦ rw (n, extend_or_relay) (handle_extend-Same m)
    | inr (hop, n) ↦ rw (n, extend_or_relay) (handle_relay-Same m)
  ]

  dispatch-Same : (command : MessageCommand) (m : Message) → Same (dispatch lib command world h m)
  unfolding dispatch close close_context
  dispatch-Same MessageCommand.create m = handle_create-Same m
  dispatch-Same MessageCommand.extend m = extend_or_relay-Same m
  dispatch-Same MessageCommand.data_cell m = handle_relay-Same m
  dispatch-Same MessageCommand.begin m = handle_relay-Same m
  dispatch-Same MessageCommand.end m = handle_relay-Same m
  dispatch-Same MessageCommand.connected m = handle_relay-Same m
  dispatch-Same MessageCommand.destroy m = refl
  dispatch-Same MessageCommand.padding m = refl
  dispatch-Same MessageCommand.created m = refl
  dispatch-Same MessageCommand.extended m = refl

  pub handle_message-Same : (m : Message) → Same (handle_message lib world h m)
  unfolding handle_message
  handle_message-Same m = dispatch-Same m.command m
