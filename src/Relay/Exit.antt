-- ===== src/Relay/Exit.antt =====
-- services/relay-node/src/circuit/exit.rs: the handler of an exit relay.
use nopanic.Prelude.{
  ℕ, find, insert, remove, List, [], ◌∷◌, ◌++◌, Bool, false, not, Option, none, some, Result, ok,
  err, length, take, ltb, ◌==◌, if◌then◌else◌,
}
use nopanic.Error.{TorError}
use nopanic.Protocol.{Message, MessageCommand, to_u8}
use nopanic.Protocol.Messages
use nopanic.Protocol.Wire.{Writer, write_to_stream}
use nopanic.Crypto.Library.{Crypto}
use nopanic.Crypto.{
  CipherPair, apply_forward, apply_backward, update_digest, verify_digest, new_pair,
}
use nopanic.Relay.Utf8.{is_utf8}
use nopanic.Relay.Exit.Streams.{ExitStream}
use nopanic.Relay.Context.{
  HandlerError, create_too_short, no_crypto_state, no_writer, write_failed, invalid_utf8,
  unexpected_command, digest_mismatch, World, KeyPair, CircuitContext, ntor_server_handshake,
  new_context, activate, close_context,
}
pub mod Streams
pub mod Tasks
pub mod Identity

-- `str::trim_end_matches('\0')`
unfoldable pub trim_end_zeros : List ℕ → List ℕ
trim_end_zeros [] = []
trim_end_zeros (b ∷ bs) = elim (trim_end_zeros bs) [
  | [] ↦ if b == 0 then [] else b ∷ []
  | c ∷ cs ↦ b ∷ c ∷ cs
]

-- "Connection failed: ", "Destination closed" and "Stream not found"
abbrev connection_failed : List ℕ
connection_failed =
    b'C' ∷ b'o' ∷ b'n' ∷ b'n' ∷ b'e' ∷ b'c' ∷ b't' ∷ b'i' ∷ b'o' ∷ b'n' ∷ b' ' ∷ b'f' ∷ b'a' ∷ b'i'
    ∷ b'l' ∷ b'e' ∷ b'd' ∷ b':' ∷ b' ' ∷ []

abbrev destination_closed : List ℕ
destination_closed =
    b'D' ∷ b'e' ∷ b's' ∷ b't' ∷ b'i' ∷ b'n' ∷ b'a' ∷ b't' ∷ b'i' ∷ b'o' ∷ b'n' ∷ b' ' ∷ b'c' ∷ b'l'
    ∷ b'o' ∷ b's' ∷ b'e' ∷ b'd' ∷ []

abbrev stream_not_found : List ℕ
stream_not_found =
    b'S' ∷ b't' ∷ b'r' ∷ b'e' ∷ b'a' ∷ b'm' ∷ b' ' ∷ b'n' ∷ b'o' ∷ b't' ∷ b' ' ∷ b'f' ∷ b'o' ∷ b'u'
    ∷ b'n' ∷ b'd' ∷ []

module _ (lib : Crypto) where
  open lib use {Hasher}

  -- `ExitCryptoState`, which the handler shares with the tasks of its streams.
  pub record ExitCryptoState : Type 0 where
    pub cipher : CipherPair lib
    pub forward_digest : Hasher
    pub backward_digest : Hasher

  -- `ExitCircuitHandler`
  pub record ExitHandler : Type 0 where
    pub context : CircuitContext lib
    pub keypair : KeyPair
    pub streams : List (ℕ × ExitStream)
    pub shared_state : Option ExitCryptoState

  abbrev pub Handled : Type 0
  Handled = Result HandlerError (Option Message) × ExitHandler

  unfoldable pub new_exit : ℕ → KeyPair → ExitHandler
  unfolding new_context
  new_exit circuit_id keypair = record {
    context = new_context lib circuit_id;
    keypair = keypair;
    streams = [];
    shared_state = none;
  }

  -- `activate` makes the pair, and `take` moves it into the shared state.
  unfoldable pub handle_create : World → ExitHandler → Message → Handled
  handle_create world h m =
      if ltb (length m.payload) 32
      then (err create_too_short, h)
      else (let (server_public, auth, key) =
            ntor_server_handshake lib world h.keypair (take 32 m.payload) in
          let context = activate lib h.context key in
          let shared : ExitCryptoState = record {
            cipher = new_pair lib key;
            forward_digest = lib.new_hasher;
            backward_digest = lib.new_hasher;
          } in
          (
            ok (some (Messages.created h.context.circuit_id (server_public ++ auth))),
            record h {
              context = record context { cipher_pair = none };
              shared_state = some shared;
            },
          ))

  -- The block that BEGIN, DATA and END begin with: one layer off, and the digest checked.
  unfoldable pub open_cell : ExitCryptoState → Message → Bool × List ℕ × ExitCryptoState
  open_cell s m =
      let (decrypted, cipher) = apply_forward lib s.cipher m.payload in
      let (good, digest) =
        verify_digest lib s.forward_digest m.stream_id (to_u8 m.command) decrypted m.digest in
      (good, decrypted, record s { cipher = cipher; forward_digest = digest })

  -- The block that makes every cell of the exit: the digest first, then the layer.
  unfoldable pub seal_cell :
      ExitCryptoState → ℕ → ℕ → MessageCommand → List ℕ → Message × ExitCryptoState
  seal_cell s circuit_id stream_id command bytes =
      let (digest, state) = update_digest lib s.backward_digest stream_id (to_u8 command) bytes in
      let (encrypted, cipher) = apply_backward lib s.cipher bytes in
      (
        record (Messages.new circuit_id stream_id command encrypted) { digest = digest },
        record s { cipher = cipher; backward_digest = state },
      )

  abbrev with_crypto : ExitHandler → ExitCryptoState → ExitHandler
  with_crypto h s = record h { shared_state = some s }

  -- An answer END with the text.
  end_with : ExitHandler → ExitCryptoState → ℕ → List ℕ → Handled
  end_with h s stream_id text =
      let (response, s') = seal_cell s h.context.circuit_id stream_id MessageCommand.end text in
      (ok (some response), with_crypto h s')

  -- BEGIN, when the destination has answered: CONNECTED is written to the previous hop before the
  -- stream is entered.
  began :
      World
      → ExitHandler
      → ExitCryptoState
      → ℕ
      → List ℕ
      → Writer
      → Result (List ℕ) (Unit {0})
      → Handled × Writer
  unfolding end_with
  began world h s stream_id dest writer (err text) =
      (end_with h s stream_id (connection_failed ++ text), writer)
  began world h s stream_id dest writer (ok _) =
      let (response, s') = seal_cell s h.context.circuit_id stream_id MessageCommand.connected [] in
      let (sent, writer') = write_to_stream world.rng response writer in
      let stream : ExitStream = record { destination = dest; closed = false; queued = [] } in
      (
        elim sent [
          | err e ↦ (err (write_failed e), with_crypto h s')
          | ok _ ↦
              (ok none, record (with_crypto h s') { streams = insert stream_id stream h.streams })
        ],
        writer',
      )

  unfoldable pub handle_begin : World → ExitHandler → Message → Writer → Handled × Writer
  unfolding began
  handle_begin world h m writer = elim h.shared_state [
    | none ↦ ((err no_crypto_state, h), writer)
    | some s ↦
        let (good, decrypted, s') = open_cell s m in
        let h' = with_crypto h s' in
        let dest = trim_end_zeros decrypted in
        if not good
        then ((err (digest_mismatch m.command), h'), writer)
        else (if not (is_utf8 decrypted)
            then ((err invalid_utf8, h'), writer)
            else began world h' s' m.stream_id dest writer (world.connect dest))
  ]

  -- DATA for a stream: the bytes go to the queue of its task, unless that has ended.
  queue_data : ExitHandler → ExitCryptoState → ℕ → List ℕ → Option ExitStream → Handled
  unfolding end_with
  queue_data h s stream_id bytes none = end_with h s stream_id stream_not_found
  queue_data h s stream_id bytes (some stream) =
      if stream.closed
      then end_with h s stream_id destination_closed
      else (let stream' = record stream { queued = stream.queued ++ (bytes ∷ []) } in
          (ok none, record h { streams = insert stream_id stream' h.streams }))

  unfoldable pub handle_data : ExitHandler → Message → Handled
  unfolding queue_data
  handle_data h m = elim h.shared_state [
    | none ↦ (err no_crypto_state, h)
    | some s ↦
        let (good, decrypted, s') = open_cell s m in
        let h' = with_crypto h s' in
        if not good
        then (err (digest_mismatch m.command), h')
        else queue_data h' s' m.stream_id decrypted (find m.stream_id h.streams)
  ]

  unfoldable pub handle_end : ExitHandler → Message → Handled
  unfolding end_with
  handle_end h m = elim h.shared_state [
    | none ↦ (err no_crypto_state, h)
    | some s ↦
        let (good, decrypted, s') = open_cell s m in
        let h' = with_crypto h s' in
        if not good
        then (err (digest_mismatch m.command), h')
        else end_with (record h' { streams = remove m.stream_id h.streams }) s' m.stream_id []
  ]

  unfoldable pub close : ExitHandler → ExitHandler
  unfolding close_context
  close h = record h { context = close_context lib h.context; streams = []; shared_state = none }

  begin_with : World → ExitHandler → Message → Option Writer → Handled × Option Writer
  begin_with world h m none = ((err no_writer, h), none)
  begin_with world h m (some writer) =
      let (handled, writer') = handle_begin world h m writer in (handled, some writer')

  dispatch :
      MessageCommand → World → ExitHandler → Message → Option Writer → Handled × Option Writer
  unfolding begin_with
  dispatch MessageCommand.create world h m w = (handle_create world h m, w)
  dispatch MessageCommand.begin world h m w = begin_with world h m w
  dispatch MessageCommand.data_cell world h m w = (handle_data h m, w)
  dispatch MessageCommand.end world h m w = (handle_end h m, w)
  dispatch MessageCommand.destroy world h m w = ((ok none, close h), w)
  dispatch MessageCommand.padding world h m w = ((ok none, h), w)
  dispatch MessageCommand.created world h m w = ((err (unexpected_command m.command), h), w)
  dispatch MessageCommand.extend world h m w = ((err (unexpected_command m.command), h), w)
  dispatch MessageCommand.extended world h m w = ((err (unexpected_command m.command), h), w)
  dispatch MessageCommand.connected world h m w = ((err (unexpected_command m.command), h), w)

  -- The writer is the previous hop's, `prev_hop_write`.
  unfoldable pub handle_message :
      World → ExitHandler → Message → Option Writer → Handled × Option Writer
  unfolding dispatch
  handle_message world h m w = dispatch m.command world h m w
