-- ===== src/Relay/Exit/Identity.antt =====
-- services/relay-node/src/circuit/exit.rs: no cell changes the circuit id of a handler.
use nopanic.Prelude.{
  ℕ, ◌≡◌, refl, List, not, Option, none, some, Result, ok, err, length, ltb, find, insert, false,
  [], Bool-cases, Option-cases, inl, inr,
}
use nopanic.Error.{TorError}
use nopanic.Protocol.{Message, MessageCommand}
use nopanic.Protocol.Wire.{Writer, write_to_stream}
use nopanic.Crypto.Library.{Crypto}
use nopanic.Relay.Utf8.{is_utf8}
use nopanic.Relay.Context.{World, write_failed, activate, close_context}
use nopanic.Relay.Exit.Streams.{ExitStream}
use nopanic.Relay.Exit.{
  ExitHandler, ExitCryptoState, Handled, handle_create, open_cell, seal_cell, end_with, began,
  handle_begin, queue_data, handle_data, handle_end, close, begin_with, dispatch, handle_message,
  trim_end_zeros,
}

module _ (lib : Crypto) (world : World) where
  -- The handler that is left has the same circuit id.
  abbrev Same : ExitHandler lib → Handled lib → Type 0
  Same h r = r.1.context.circuit_id ≡ h.context.circuit_id

  handle_create-Same : (h : ExitHandler lib) (m : Message) → Same h (handle_create lib world h m)
  unfolding handle_create activate
  handle_create-Same h m = elim (Bool-cases (ltb (length m.payload) 32)) [
    | inl e ↦ rw e refl
    | inr e ↦ rw e refl
  ]

  began-Same :
      (h : ExitHandler lib) (s : ExitCryptoState lib) (sid : ℕ) (dest : List ℕ) (w : Writer)
      (r : Result (List ℕ) (Unit {0}))
      → Same h (began lib world h s sid dest w r).0
  unfolding began end_with
  began-Same h s sid dest w (err text) = refl
  began-Same h s sid dest w (ok _) =
      sent-Same
        (write_to_stream world.rng
          (seal_cell lib s h.context.circuit_id sid MessageCommand.connected []).0 w).0
    where
      s' : ExitCryptoState lib
      s' = (seal_cell lib s h.context.circuit_id sid MessageCommand.connected []).1

      stream : ExitStream
      stream = record { destination = dest; closed = false; queued = [] }

      sent-Same :
          (sent : Result TorError (Unit {0}))
          → Same h (elim sent as (λ x. Handled lib) [
            | err e ↦ (err (write_failed e), record h { shared_state = some s' })
            | ok _ ↦ (
              ok none,
              record h { shared_state = some s'; streams = insert sid stream h.streams },
            )
          ])
      sent-Same (err e) = refl
      sent-Same (ok _) = refl

  handle_begin-Same :
      (h : ExitHandler lib) (m : Message) (w : Writer) → Same h (handle_begin lib world h m w).0
  unfolding handle_begin
  handle_begin-Same h m w = elim (Option-cases h.shared_state) [
    | inl e ↦ rw (e, handle_begin) refl
    | inr (s, e) ↦
        let (good, decrypted, s') = open_cell lib s m in
        let dest = trim_end_zeros decrypted in
        elim (Bool-cases (not good)) [
          | inl g ↦ rw (e, handle_begin, g) refl
          | inr g ↦ elim (Bool-cases (not (is_utf8 decrypted))) [
            | inl u ↦ rw (e, handle_begin, g, u) refl
            | inr u ↦
                rw (e, handle_begin, g, u)
                  (began-Same (record h { shared_state = some s' }) s' m.stream_id dest w
                    (world.connect dest))
          ]
        ]
  ]

  queue_data-Same :
      (h : ExitHandler lib) (s : ExitCryptoState lib) (sid : ℕ) (bytes : List ℕ)
      (found : Option ExitStream)
      → Same h (queue_data lib h s sid bytes found)
  unfolding queue_data end_with
  queue_data-Same h s sid bytes none = refl
  queue_data-Same h s sid bytes (some stream) = elim (Bool-cases stream.closed) [
    | inl e ↦ rw e refl
    | inr e ↦ rw e refl
  ]

  handle_data-Same : (h : ExitHandler lib) (m : Message) → Same h (handle_data lib h m)
  unfolding handle_data
  handle_data-Same h m = elim (Option-cases h.shared_state) [
    | inl e ↦ rw (e, handle_data) refl
    | inr (s, e) ↦
        let (good, decrypted, s') = open_cell lib s m in
        elim (Bool-cases (not good)) [
          | inl g ↦ rw (e, handle_data, g) refl
          | inr g ↦
              rw (e, handle_data, g)
                (queue_data-Same (record h { shared_state = some s' }) s' m.stream_id decrypted
                  (find m.stream_id h.streams))
        ]
  ]

  handle_end-Same : (h : ExitHandler lib) (m : Message) → Same h (handle_end lib h m)
  unfolding handle_end end_with
  handle_end-Same h m = elim (Option-cases h.shared_state) [
    | inl e ↦ rw (e, handle_end) refl
    | inr (s, e) ↦ elim (Bool-cases (not (open_cell lib s m).0)) [
      | inl g ↦ rw (e, handle_end, g) refl
      | inr g ↦ rw (e, handle_end, g) refl
    ]
  ]

  begin_with-Same :
      (h : ExitHandler lib) (m : Message) (w : Option Writer)
      → Same h (begin_with lib world h m w).0
  unfolding begin_with
  begin_with-Same h m none = refl
  begin_with-Same h m (some w) = handle_begin-Same h m w

  dispatch-Same :
      (command : MessageCommand) (h : ExitHandler lib) (m : Message) (w : Option Writer)
      → Same h (dispatch lib command world h m w).0
  unfolding dispatch close close_context
  dispatch-Same MessageCommand.create h m w = handle_create-Same h m
  dispatch-Same MessageCommand.begin h m w = begin_with-Same h m w
  dispatch-Same MessageCommand.data_cell h m w = handle_data-Same h m
  dispatch-Same MessageCommand.end h m w = handle_end-Same h m
  dispatch-Same MessageCommand.destroy h m w = refl
  dispatch-Same MessageCommand.padding h m w = refl
  dispatch-Same MessageCommand.created h m w = refl
  dispatch-Same MessageCommand.extend h m w = refl
  dispatch-Same MessageCommand.extended h m w = refl
  dispatch-Same MessageCommand.connected h m w = refl

  pub handle_message-Same :
      (h : ExitHandler lib) (m : Message) (w : Option Writer)
      → Same h (handle_message lib world h m w).0
  unfolding handle_message
  handle_message-Same h m w = dispatch-Same m.command h m w
