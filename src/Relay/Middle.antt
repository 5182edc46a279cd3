-- ===== src/Relay/Middle.antt =====
-- services/relay-node/src/circuit/middle.rs: the handler of a middle relay. A handler returns its
-- result and the state it leaves, also where it fails.
pub mod Forwarding
pub mod Identity
use nopanic.Prelude.{
  ℕ, List, [], ◌++◌, Option, none, some, Result, ok, err, map_err, length, take, ltb, if◌then◌else◌,
}
use nopanic.Error.{TorError}
use nopanic.Protocol.{Message, MessageCommand}
use nopanic.Protocol.Messages
use nopanic.Protocol.Wire.{Writer, write_to_stream}
use nopanic.Crypto.Library.{Crypto}
use nopanic.Crypto.{CipherPair, apply_forward, apply_backward}
use nopanic.Relay.Context.{
  HandlerError, create_too_short, extended_too_short, created_too_short, not_established,
  write_failed, unexpected_command, World, KeyPair, NextHop, CircuitContext, ntor_server_handshake,
  new_context, activate, close_context,
}
use nopanic.Relay.Extend.{reach_next}

module _ (lib : Crypto) where
  -- `MiddleCircuitHandler`
  pub record MiddleHandler : Type 0 where
    pub context : CircuitContext lib
    pub keypair : KeyPair
    pub next_hop : Option NextHop

  abbrev pub Handled : Type 0
  Handled = Result HandlerError (Option Message) × MiddleHandler

  unfoldable pub new_middle : ℕ → KeyPair → MiddleHandler
  unfolding new_context
  new_middle circuit_id keypair = record {
    context = new_context lib circuit_id;
    keypair = keypair;
    next_hop = none;
  }

  abbrev pub with_pair : MiddleHandler → CipherPair lib → MiddleHandler
  with_pair h pair = record h { context = record h.context { cipher_pair = some pair } }

  unfoldable pub handle_create : World → MiddleHandler → Message → Handled
  handle_create world h m =
      if ltb (length m.payload) 32
      then (err create_too_short, h)
      else (let (server_public, auth, key) =
            ntor_server_handshake lib world h.keypair (take 32 m.payload) in
          let response = Messages.created h.context.circuit_id (server_public ++ auth) in
          (ok (some response), record h { context = activate lib h.context key }))

  -- An EXTENDED cell that comes from the previous hop goes back as it is.
  unfoldable pub handle_extended : MiddleHandler → Message → Handled
  handle_extended h m =
      if ltb (length m.payload) 32 then (err extended_too_short, h) else (ok (some m), h)

  -- The end of `handle_extend`: an answer of less than a key is refused; otherwise the hop is kept, and the answer
  -- goes back under one layer.
  answer_extended :
      MiddleHandler → CipherPair lib → Result HandlerError (Message × NextHop) → Handled
  answer_extended h pair (err e) = (err e, with_pair h pair)
  answer_extended h pair (ok (reply, hop)) =
      if ltb (length reply.payload) 32
      then (err created_too_short, with_pair h pair)
      else (let (encrypted, pair') = apply_backward lib pair reply.payload in
          (
            ok (some (Messages.extended h.context.circuit_id encrypted)),
            record (with_pair h pair') { next_hop = some hop },
          ))

  unfoldable pub handle_extend : World → MiddleHandler → Message → Handled
  unfolding answer_extended
  handle_extend world h m = elim h.context.cipher_pair [
    | none ↦ (err not_established, h)
    | some pair ↦
        let (decrypted, pair') = apply_forward lib pair m.payload in
        answer_extended h pair' (reach_next world h.context.circuit_id decrypted)
  ]

  wrote : MiddleHandler → NextHop → Result TorError (Unit {0}) × Writer → Handled
  wrote h hop (err e, write) =
      (err (write_failed e), record h { next_hop = some (record hop { write = write }) })
  wrote h hop (ok _, write) = (ok none, record h { next_hop = some (record hop { write = write }) })

  -- One layer is peeled off, and the cell goes on to the next hop, if there is one.
  unfoldable pub handle_relay : World → MiddleHandler → Message → Handled
  unfolding wrote
  handle_relay world h m = elim h.context.cipher_pair [
    | none ↦ (err not_established, h)
    | some pair ↦
        let (decrypted, pair') = apply_forward lib pair m.payload in
        let h' = with_pair h pair' in
        elim h.next_hop [
          | none ↦ (ok none, h')
          | some hop ↦
              let forward = record (Messages.new m.circuit_id m.stream_id m.command decrypted) {
                digest = m.digest;
              } in
              wrote h' hop (write_to_stream world.rng forward hop.write)
        ]
  ]

  unfoldable pub handle_backward_relay : MiddleHandler → Message → Handled
  handle_backward_relay h m = elim h.context.cipher_pair [
    | none ↦ (err not_established, h)
    | some pair ↦
        let (encrypted, pair') = apply_backward lib pair m.payload in
        let response = record (Messages.new m.circuit_id m.stream_id m.command encrypted) {
          digest = m.digest;
        } in
        (ok (some response), with_pair h pair')
  ]

  unfoldable pub close : MiddleHandler → MiddleHandler
  unfolding close_context
  close h = record h { context = close_context lib h.context; next_hop = none }

  extend_or_relay : World → MiddleHandler → Message → Handled
  extend_or_relay world h m = elim h.next_hop [
    | none ↦ handle_extend world h m
    | some hop ↦ handle_relay world h m
  ]

  dispatch : MessageCommand → World → MiddleHandler → Message → Handled
  unfolding extend_or_relay
  dispatch MessageCommand.create world h m = handle_create world h m
  dispatch MessageCommand.extend world h m = extend_or_relay world h m
  dispatch MessageCommand.data_cell world h m = handle_relay world h m
  dispatch MessageCommand.begin world h m = handle_relay world h m
  dispatch MessageCommand.end world h m = handle_relay world h m
  dispatch MessageCommand.connected world h m = handle_relay world h m
  dispatch MessageCommand.destroy world h m = (ok none, close h)
  dispatch MessageCommand.padding world h m = (ok none, h)
  dispatch MessageCommand.created world h m = (err (unexpected_command m.command), h)
  dispatch MessageCommand.extended world h m = handle_extended h m

  unfoldable pub handle_message : World → MiddleHandler → Message → Handled
  unfolding dispatch
  handle_message world h m = dispatch m.command world h m
