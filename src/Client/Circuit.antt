-- ===== src/Client/Circuit.antt =====
-- services/tor-client/src/core/circuit.rs: `Circuit`, and what the reader of its entry connection
-- does with one answer of the stream. The text `path_display` is left out.
pub mod Ids
pub mod Closes
use nopanic.Prelude.{
  ℕ, zero, suc, ◌+◌, ◌%◌, find, insert, remove, List, [], ◌∷◌, ◌++◌, Bool, true, false, not, Option,
  none, some, Result, ok, err, length, ◌==◌, if◌then◌else◌,
}
use nopanic.Error.{TorError}
use nopanic.Protocol.{Message, MessageCommand, to_u8, command_eq, destroy}
use nopanic.Protocol.Messages
use nopanic.Protocol.Wire.{Reader, Writer, IoError, from_stream, write_to_stream}
use nopanic.Crypto.Library.{Crypto}
use nopanic.Crypto.{update_digest, verify_digest}
use nopanic.Client.Onion.{OnionKeys, onion_encrypt, onion_decrypt}

pub data CircuitState : Type 0 where
  building ready dirty closing closed : CircuitState

-- The sender's end of a stream's channel: what was sent through it, and whether the receiver is
-- gone.
pub record Sender : Type 0 where
  pub receiver_gone : Bool
  pub sent : List Message

module _ (lib : Crypto) where
  pub record Circuit : Type 0 where
    pub circuit_id : ℕ
    pub state : CircuitState
    pub entry_writer : Writer
    pub onion_keys : OnionKeys lib
    pub stream_senders : List (ℕ × Sender)
    pub next_stream_id : ℕ

  unfoldable pub active_stream_count : Circuit → ℕ
  active_stream_count c = length c.stream_senders

  -- `wrapping_add` on a u16; 0 is skipped, since it stands for the circuit itself.
  unfoldable pub allocate_stream_id : Circuit → ℕ × Circuit
  allocate_stream_id c =
      let next = (c.next_stream_id + 1) % 65536 in
      (c.next_stream_id, record c { next_stream_id = if next == 0 then 1 else next })

  unfoldable pub register_stream : Circuit → ℕ → Sender → Circuit
  register_stream c stream_id sender = record c {
    stream_senders = insert stream_id sender c.stream_senders;
  }

  unfoldable pub unregister_stream : Circuit → ℕ → Circuit
  unregister_stream c stream_id = record c { stream_senders = remove stream_id c.stream_senders }

  -- `Circuit::send_message`: the digest is taken of the plain bytes and the layers are put on before
  -- the write is tried, so both have moved on where the write fails.
  unfoldable pub send_message :
      (ℕ → ℕ) → Circuit → ℕ → MessageCommand → List ℕ → Result TorError (Unit {0}) × Circuit
  send_message rng c stream_id command bytes =
      let keys = c.onion_keys in
      let (digest, hashed) =
        update_digest lib keys.forward_digest stream_id (to_u8 command) bytes in
      let (encrypted, keys') = onion_encrypt lib (record keys { forward_digest = hashed }) bytes in
      let m = record (Messages.new c.circuit_id stream_id command encrypted) { digest = digest } in
      let (sent, writer) = write_to_stream rng m c.entry_writer in
      (sent, record c { onion_keys = keys'; entry_writer = writer })

  -- `Circuit::send_raw`
  unfoldable pub send_raw : (ℕ → ℕ) → Circuit → Message → Result TorError (Unit {0}) × Circuit
  send_raw rng c m =
      let (sent, writer) = write_to_stream rng m c.entry_writer in
      (sent, record c { entry_writer = writer })

  abbrev pub shut : Circuit → Circuit
  shut c = record c { state = closed; stream_senders = [] }

  -- The message goes into the channel of its stream; nothing happens where there is none, or where
  -- the receiver is gone.
  unfoldable pub deliver : Circuit → Message → Circuit
  deliver c m = elim (find m.stream_id c.stream_senders) [
    | none ↦ c
    | some sender ↦ if sender.receiver_gone then c else record c {
      stream_senders =
          insert m.stream_id (record sender { sent = sender.sent ++ (m ∷ []) }) c.stream_senders;
    }
  ]

  -- The layers come off, and the digest is checked.
  unfoldable pub open_backward : Circuit → Message → Bool × Message × Circuit
  open_backward c m =
      let (decrypted, keys) = onion_decrypt lib c.onion_keys m.payload in
      let (good, hashed) =
        verify_digest lib keys.backward_digest m.stream_id (to_u8 m.command) decrypted m.digest in
      (
        good,
        Messages.new m.circuit_id m.stream_id m.command decrypted,
        record c { onion_keys = record keys { backward_digest = hashed } },
      )

  -- One round of the loop of `spawn_circuit_reader`, and what stands behind the loop where it ends:
  -- whether the loop goes on, and the circuit.
  unfoldable pub read_round : Circuit → Result IoError (Option Message) → Bool × Circuit
  unfolding open_backward deliver
  read_round c (err e) = (false, shut c)
  read_round c (ok none) = (false, shut c)
  read_round c (ok (some m)) =
      if command_eq m.command destroy
      then (false, shut c)
      else (let (good, plain, c') = open_backward c m in
          if not good then (false, shut c') else (true, deliver c' plain))

  -- `spawn_circuit_reader`, with fuel for its rounds; `none` where it runs out.
  unfoldable pub circuit_reader : ℕ → Reader → Circuit → Option Circuit
  unfolding read_round
  circuit_reader zero reader c = none
  circuit_reader (suc fuel) reader c =
      let (read, reader') = from_stream reader in
      let (goes_on, c') = read_round c read in
      let rest = circuit_reader fuel reader' c' in if goes_on then rest else some c'
