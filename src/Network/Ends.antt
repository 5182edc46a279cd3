-- ===== src/Network/Ends.antt =====
-- The two ends of a circuit on one cell: what `send_message` writes, and what the exit makes of it.
use nopanic.Prelude.{
  ℕ, ◌≡◌, ◌≤◌, ◌<◌, refl, find, insert, List, [], ◌∷◌, ◌++◌, true, false, none, some, ok, length,
  arith,
}
use nopanic.Protocol.{Message, MessageCommand, max_payload_size, to_u8}
use nopanic.Protocol.Messages.{new}
use nopanic.Protocol.Wire.Framing.{Fits, write_to_stream-Fits}
use nopanic.Crypto.Library.{Crypto, KeystreamLaws}
use nopanic.Crypto.{apply_forward, update_digest}
use nopanic.Crypto.Digest.{length-update_digest, verify_digest-update_digest}
use nopanic.Client.Onion.{wrap, onion_encrypt}
use nopanic.Client.Onion.Layers.{apply_forward_undo, length-wrap}
use nopanic.Client.Circuit.{Circuit, send_message}
use nopanic.Relay.Exit.{ExitHandler, ExitCryptoState, open_cell, handle_data}
use nopanic.Relay.Exit.Streams.{ExitStream}
use nopanic.Network.{idle, cell_in}
use nopanic.Network.Forward.{cell_in-to_bytes}

module _ (lib : Crypto) where
  -- What the client writes for a cell, as `send_message` makes it.
  abbrev pub sent_cell : Circuit lib → ℕ → MessageCommand → List ℕ → Message
  sent_cell c sid command bytes = record {
    circuit_id = c.circuit_id;
    stream_id = sid;
    command = command;
    payload = (wrap lib c.onion_keys.ciphers bytes).0;
    digest = (update_digest lib c.onion_keys.forward_digest sid (to_u8 command) bytes).0;
  }

  -- The circuit behind a cell that was written and read.
  abbrev pub after_cell : Circuit lib → ℕ → MessageCommand → List ℕ → Circuit lib
  after_cell c sid command bytes = record c {
    onion_keys = record c.onion_keys {
      ciphers = (wrap lib c.onion_keys.ciphers bytes).1;
      forward_digest = (update_digest lib c.onion_keys.forward_digest sid (to_u8 command) bytes).1;
    };
  }

  module _ (laws : KeystreamLaws lib) (c : Circuit lib) (sid : ℕ) (command : MessageCommand)
      (bytes : List ℕ) (cid_u32 : c.circuit_id < 4294967296) (sid_u16 : sid < 65536)
      (small : length bytes ≤ max_payload_size) where
    pub sent_cell-Fits : Fits (sent_cell c sid command bytes)
    sent_cell-Fits = record {
      wire = record {
        circuit_id_u32 = cid_u32;
        stream_id_u16 = sid_u16;
        digest_array =
            length-update_digest lib c.onion_keys.forward_digest sid (to_u8 command) bytes;
      };
      small = omega (arith, length-wrap lib laws c.onion_keys.ciphers bytes);
    }

    pub send_message_lem :
        (rng : ℕ → ℕ)
        → c.entry_writer ≡ idle
        → (let (sent, c') = send_message lib rng c sid command bytes in
            (sent ≡ ok tt)
            × (cell_in c'.entry_writer ≡ some (sent_cell c sid command bytes))
            × (record c' { entry_writer = idle }
                ≡ record (after_cell c sid command bytes) { entry_writer = idle }))
    unfolding send_message onion_encrypt new
    send_message_lem rng e =
        let written = write_to_stream-Fits rng (sent_cell c sid command bytes) [] sent_cell-Fits in
        rw (e, send_message, written) (refl, cell_in-to_bytes rng _ sent_cell-Fits, refl)

  -- The cell as it reaches the exit, under the exit's layer alone.
  abbrev pub arrived_cell :
      Circuit lib → ExitCryptoState lib → ℕ → MessageCommand → List ℕ → Message
  arrived_cell c s sid command bytes = record (sent_cell c sid command bytes) {
    payload = (apply_forward lib s.cipher bytes).0;
  }

  -- The exit's crypto state behind that cell.
  abbrev pub after_open :
      Circuit lib → ExitCryptoState lib → ℕ → MessageCommand → List ℕ → ExitCryptoState lib
  after_open c s sid command bytes = record s {
    cipher = (apply_forward lib s.cipher bytes).1;
    forward_digest = (update_digest lib c.onion_keys.forward_digest sid (to_u8 command) bytes).1;
  }

  module _ (laws : KeystreamLaws lib) where
    pub open_cell-arrived :
        (c : Circuit lib) (s : ExitCryptoState lib) (sid : ℕ) (command : MessageCommand)
        (bytes : List ℕ)
        → s.forward_digest ≡ c.onion_keys.forward_digest
        → open_cell lib s (arrived_cell c s sid command bytes)
          ≡ (true, bytes, after_open c s sid command bytes)
    unfolding open_cell
    open_cell-arrived c s sid command bytes e = rw (
      apply_forward_undo lib laws s.cipher bytes,
      e,
      verify_digest-update_digest lib c.onion_keys.forward_digest sid (to_u8 command) bytes,
    )

    pub handle_data-arrived :
        (c : Circuit lib) (x : ExitHandler lib) (s : ExitCryptoState lib) (stream : ExitStream)
        (sid : ℕ) (bytes : List ℕ)
        → x.shared_state ≡ some s
        → s.forward_digest ≡ c.onion_keys.forward_digest
        → find sid x.streams ≡ some stream
        → stream.closed ≡ false
        → handle_data lib x (arrived_cell c s sid MessageCommand.data_cell bytes) ≡ (
          ok none,
          record x {
            shared_state = some (after_open c s sid MessageCommand.data_cell bytes);
            streams =
                insert sid (record stream { queued = stream.queued ++ (bytes ∷ []) }) x.streams;
          },
        )
    unfolding handle_data
    handle_data-arrived c x s stream sid bytes e d f o =
        rw (e, handle_data, open_cell-arrived c s sid MessageCommand.data_cell bytes d, f, o)
