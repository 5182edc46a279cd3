-- ===== src/Network/Answers.antt =====
-- A cell of a stream's task at the exit, through the relays, to the client's channel for the stream.
use nopanic.Prelude.{
  ℕ, ◌≡◌, ◌≤◌, ◌<◌, ◌∙◌, refl, ap, Bool, not, if◌then◌else◌, find, insert, List, [], ◌∷◌, ◌++◌,
  true, false, Option, none, some, ok, length, arith,
}
use nopanic.Protocol.{Message, MessageCommand, max_payload_size, to_u8, command_eq, destroy}
use nopanic.Protocol.Messages.{new}
use nopanic.Protocol.Wire.Framing.{Fits, write_to_stream-Fits}
use nopanic.Crypto.Library.{Crypto, KeystreamLaws}
use nopanic.Crypto.{apply_backward, update_digest}
use nopanic.Crypto.Digest.{length-update_digest, verify_digest-update_digest}
use nopanic.Client.Onion.{onion_decrypt}
use nopanic.Client.Onion.Layers.{coat, unwrap-coat}
use nopanic.Client.Circuit.{Circuit, Sender, open_backward, deliver, read_round, shut}
use nopanic.Relay.Context.{World}
use nopanic.Relay.Exit.{ExitCryptoState, seal_cell}
use nopanic.Relay.Exit.Tasks.{StreamTask, send_back}
use nopanic.Network.{idle, cell_in, LinkedPath}
use nopanic.Network.Forward.{cell_in-to_bytes}
use nopanic.Network.Backward.{carry_back, carry_back-coat}
use nopanic.Network.Delivery.{Ends, Synced}

if_false {ℓ} : {A : Type ℓ} (t : Bool) (a b : A) → t ≡ false → (if t then a else b) ≡ b
if_false t a b h = rw h

module _ (lib : Crypto) where
  abbrev take_back : Circuit lib → Option Message → Circuit lib
  take_back c none = c
  take_back c (some m) = (read_round lib c (ok (some m))).1

  -- One cell of a stream's task from end to end: the exit seals and writes it, the relays bring it
  -- back, the client's reader takes it.
  abbrev pub respond : World → ℕ → MessageCommand → List ℕ → Ends lib → Ends lib
  respond world sid command bytes e = elim e.exit.shared_state [
    | none ↦ e
    | some s ↦
        let task : StreamTask lib = record {
          shared_state = s;
          prev_hop_write = idle;
          dest_written = [];
        } in
        let (sent, task') =
          send_back lib world.rng e.exit.context.circuit_id sid command bytes task in
        let (arrived, hs) = carry_back lib world e.relays (cell_in task'.prev_hop_write) in
        record {
          client = take_back e.client arrived;
          relays = hs;
          exit = record e.exit { shared_state = some task'.shared_state };
        }
  ]

  module _ (cid sid : ℕ) (command : MessageCommand) (bytes : List ℕ) where
    -- The cell under the exit's layer.
    abbrev sealed : ExitCryptoState lib → Message
    sealed s = record {
      circuit_id = cid;
      stream_id = sid;
      command = command;
      payload = (apply_backward lib s.cipher bytes).0;
      digest = (update_digest lib s.backward_digest sid (to_u8 command) bytes).0;
    }

    -- The exit's state behind it.
    abbrev after_seal : ExitCryptoState lib → ExitCryptoState lib
    after_seal s = record s {
      cipher = (apply_backward lib s.cipher bytes).1;
      backward_digest = (update_digest lib s.backward_digest sid (to_u8 command) bytes).1;
    }

    -- The client's circuit behind it.
    abbrev after_read : Circuit lib → Sender → Circuit lib
    after_read c sender = record c {
      onion_keys = record c.onion_keys {
        ciphers = (coat lib c.onion_keys.ciphers bytes).1;
        backward_digest =
            (update_digest lib c.onion_keys.backward_digest sid (to_u8 command) bytes).1;
      };
      stream_senders =
          insert sid (record sender { sent = sender.sent ++ (new cid sid command bytes ∷ []) })
            c.stream_senders;
    }

    module _ (laws : KeystreamLaws lib) where
      -- The client's circuit when the cell is open, before it is delivered.
      abbrev after_open : Circuit lib → Circuit lib
      after_open c = record c {
        onion_keys = record c.onion_keys {
          ciphers = (coat lib c.onion_keys.ciphers bytes).1;
          backward_digest =
              (update_digest lib c.onion_keys.backward_digest sid (to_u8 command) bytes).1;
        };
      }

      open_backward-sealed :
          (c : Circuit lib) (s : ExitCryptoState lib)
          → s.backward_digest ≡ c.onion_keys.backward_digest
          → open_backward lib c
              (record (sealed s) { payload = (coat lib c.onion_keys.ciphers bytes).0 })
            ≡ (true, new cid sid command bytes, after_open c)
      unfolding open_backward onion_decrypt
      open_backward-sealed c s d = rw (
        d,
        unwrap-coat lib laws c.onion_keys.ciphers bytes,
        verify_digest-update_digest lib c.onion_keys.backward_digest sid (to_u8 command) bytes,
      )

      deliver-found :
          (c : Circuit lib) (sender : Sender)
          → find sid c.stream_senders ≡ some sender
          → sender.receiver_gone ≡ false
          → deliver lib (after_open c) (new cid sid command bytes) ≡ after_read c sender
      unfolding deliver new
      deliver-found c sender found here =
          rw (found, deliver) (if_false sender.receiver_gone _ _ here)

      read_round_lem :
          (c c' : Circuit lib) (m plain : Message)
          → command_eq m.command destroy ≡ false
          → open_backward lib c m ≡ (true, plain, c')
          → read_round lib c (ok (some m)) ≡ (true, deliver lib c' plain)
      unfolding read_round
      read_round_lem c c' m plain alive e =
          rw alive
            (ap (λ t. if not t.0 then (false, shut lib t.2) else (true, deliver lib t.2 t.1)) e)

      read_round-sealed :
          (c : Circuit lib) (s : ExitCryptoState lib) (sender : Sender)
          → s.backward_digest ≡ c.onion_keys.backward_digest
          → command_eq command destroy ≡ false
          → find sid c.stream_senders ≡ some sender
          → sender.receiver_gone ≡ false
          → read_round lib c
              (ok (some (record (sealed s) { payload = (coat lib c.onion_keys.ciphers bytes).0 })))
            ≡ (true, after_read c sender)
      read_round-sealed c s sender d alive found here =
          read_round_lem c (after_open c) _ _ alive (open_backward-sealed c s d)
          ∙ ap (λ c'. (true, c')) (deliver-found c sender found here)

      sealed-Fits :
          (s : ExitCryptoState lib)
          → cid < 4294967296
          → sid < 65536
          → length bytes ≤ max_payload_size
          → Fits (sealed s)
      unfolding apply_backward
      sealed-Fits s cid_u32 sid_u16 small = record {
        wire = record {
          circuit_id_u32 = cid_u32;
          stream_id_u16 = sid_u16;
          digest_array = length-update_digest lib s.backward_digest sid (to_u8 command) bytes;
        };
        small = omega (arith, laws.keeps_length s.cipher.backward bytes);
      }

  module _ (laws : KeystreamLaws lib) (world : World) (sid : ℕ) (command : MessageCommand)
      (bytes : List ℕ) (e : Ends lib) (s : Synced lib e) where
    -- The ends behind the cell.
    abbrev pub after_respond : Sender → Ends lib
    after_respond sender =
        let cid = e.exit.context.circuit_id in
        record {
          client = after_read cid sid command bytes e.client sender;
          relays = (carry_back lib world e.relays (some (sealed cid sid command bytes s.crypto))).1;
          exit = record e.exit { shared_state = some (after_seal cid sid command bytes s.crypto) };
        }

    module _ (sender : Sender) (cid_u32 : e.exit.context.circuit_id < 4294967296)
        (sid_u16 : sid < 65536) (small : length bytes ≤ max_payload_size) where
      carried_back :
          (let cid = e.exit.context.circuit_id in
            let sent = sealed cid sid command bytes s.crypto in
            let (coated, cs) = coat lib e.client.onion_keys.ciphers bytes in
            let (arrived, hs) = carry_back lib world e.relays (some sent) in
            (arrived ≡ some (record sent { payload = coated }))
            × LinkedPath lib cs hs (apply_backward lib s.crypto.cipher bytes).1)
      carried_back =
          let cid = e.exit.context.circuit_id in
          carry_back-coat lib world laws e.client.onion_keys.ciphers e.relays s.crypto.cipher
            (sealed cid sid command bytes s.crypto) bytes
            (sealed-Fits cid sid command bytes laws s.crypto cid_u32 sid_u16 small).wire small
            s.path

      pub after_respond-Synced : Synced lib (after_respond sender)
      after_respond-Synced = record {
        crypto = after_seal e.exit.context.circuit_id sid command bytes s.crypto;
        has_crypto = refl;
        digest = s.digest;
        path = carried_back.1;
        idle_writer = s.idle_writer;
        circuit_id_u32 = s.circuit_id_u32;
      }

      sent_back :
          (let cid = e.exit.context.circuit_id in
            let task =
              send_back lib world.rng cid sid command bytes
                (record { shared_state = s.crypto; prev_hop_write = idle; dest_written = [] }) in
            (cell_in task.1.prev_hop_write ≡ some (sealed cid sid command bytes s.crypto))
            × (task.1.shared_state ≡ after_seal cid sid command bytes s.crypto))
      unfolding send_back seal_cell new
      sent_back =
          let cid = e.exit.context.circuit_id in
          let fits = sealed-Fits cid sid command bytes laws s.crypto cid_u32 sid_u16 small in
          let written =
            write_to_stream-Fits world.rng (sealed cid sid command bytes s.crypto) [] fits in
          (ap (λ t. cell_in t.1) written ∙ cell_in-to_bytes world.rng _ fits, refl)

      pub respond_lem :
          s.crypto.backward_digest ≡ e.client.onion_keys.backward_digest
          → command_eq command destroy ≡ false
          → find sid e.client.stream_senders ≡ some sender
          → sender.receiver_gone ≡ false
          → respond world sid command bytes e ≡ after_respond sender
      respond_lem d alive found here =
          let cid = e.exit.context.circuit_id in
          let (cell, crypto) = sent_back in
          let arrives = ap (λ t. (carry_back lib world e.relays t).0) cell ∙ carried_back.0 in
          let read =
            read_round-sealed cid sid command bytes laws e.client s.crypto sender d alive found
              here in
          let taken = ap (take_back e.client) arrives ∙ ap (λ t. t.1) read in
          rw (s.has_crypto) (λ i. record {
            client = taken i;
            relays = (carry_back lib world e.relays (cell i)).1;
            exit = record e.exit { shared_state = some (crypto i) };
          })
