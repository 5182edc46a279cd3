-- ===== src/Network/Delivery.antt =====
-- A client, its relays and its exit in step: DATA that is sent is queued for the destination.
use nopanic.Prelude.{
  ◌≢◌, ℕ, ◌≡◌, ◌≤◌, ◌<◌, ◌∙◌, refl, ap, sym, subst, find, insert, find-insert, List, [], ◌∷◌, ◌++◌,
  false, Option, none, some, length, arith, append-nil, append_assoc,
}
use nopanic.Protocol.{Message, MessageCommand, max_payload_size}
use nopanic.Crypto.Library.{Crypto, KeystreamLaws}
use nopanic.Crypto.{apply_forward}
use nopanic.Client.Onion.{wrap}
use nopanic.Client.Circuit.{Circuit, send_message}
use nopanic.Relay.Context.{World, relayed_data}
use nopanic.Relay.Handler.{CircuitHandler}
use nopanic.Relay.Exit.{ExitHandler, ExitCryptoState, handle_message}
use nopanic.Relay.Exit.Streams.{ExitStream}
use nopanic.Network.{idle, cell_in, carry, LinkedPath}
use nopanic.Network.Forward.{carry-wrap}
use nopanic.Network.Ends.{
  send_message_lem, handle_data-arrived, sent_cell, sent_cell-Fits, arrived_cell, after_cell,
  after_open,
}

module _ (lib : Crypto) where
  -- A circuit at the client, its entry and middle relays, and its exit.
  pub record Ends : Type 0 where
    pub client : Circuit lib
    pub relays : List (CircuitHandler lib)
    pub exit : ExitHandler lib

  -- Nothing is on its way, and the two ends of every layer and digest are at the same place.
  pub record Synced (e : Ends) : Type 0 where
    pub crypto : ExitCryptoState lib
    pub has_crypto : e.exit.shared_state ≡ some crypto
    pub digest : crypto.forward_digest ≡ e.client.onion_keys.forward_digest
    pub path : LinkedPath lib e.client.onion_keys.ciphers e.relays crypto.cipher
    pub idle_writer : e.client.entry_writer ≡ idle
    pub circuit_id_u32 : e.client.circuit_id < 4294967296

  abbrev receive : World → ExitHandler lib → Option Message → ExitHandler lib
  receive world x none = x
  receive world x (some m) = (handle_message lib world x m none).0.1

  -- One DATA cell from end to end: the client sends, the relays pass it on, the exit handles it.
  abbrev pub transmit : World → ℕ → List ℕ → Ends → Ends
  transmit world sid bytes e =
      let (sent, c') = send_message lib world.rng e.client sid MessageCommand.data_cell bytes in
      let (arrived, hs') = carry lib world e.relays (cell_in c'.entry_writer) in
      record {
        client = record c' { entry_writer = idle };
        relays = hs';
        exit = receive world e.exit arrived;
      }

  abbrev pub transmit_all : World → ℕ → List (List ℕ) → Ends → Ends
  transmit_all world sid [] e = e
  transmit_all world sid (bytes ∷ rest) e = transmit_all world sid rest (transmit world sid bytes e)

  abbrev pub AllSmall : List (List ℕ) → Type 0
  AllSmall [] = Unit {0}
  AllSmall (bytes ∷ rest) = (length bytes ≤ max_payload_size) × AllSmall rest

  -- The ends after `chunks` were sent on stream `sid`: they stand behind what was queued for its
  -- destination, stream `other` is as before, and the ends are in step.
  abbrev pub Delivered : ℕ → ℕ → Ends → ExitStream → List (List ℕ) → Ends → Type 0
  Delivered sid other e stream chunks e' =
      Synced e'
      × (find sid e'.exit.streams ≡ some (record stream { queued = stream.queued ++ chunks }))
      × (find other e'.exit.streams ≡ find other e.exit.streams)

  module _ (laws : KeystreamLaws lib) (world : World) (sid : ℕ) (sid_u16 : sid < 65536) where
    -- The ends behind one cell.
    abbrev pub after_transmit : (e : Ends) → Synced e → ExitStream → List ℕ → Ends
    after_transmit e s stream bytes =
        let command = MessageCommand.data_cell in
        let sent = sent_cell lib e.client sid command bytes in
        record {
          client = record (after_cell lib e.client sid command bytes) { entry_writer = idle };
          relays = (carry lib world e.relays (some sent)).1;
          exit = record e.exit {
            shared_state = some (after_open lib e.client s.crypto sid command bytes);
            streams =
                insert sid (record stream { queued = stream.queued ++ (bytes ∷ []) })
                  e.exit.streams;
          };
        }

    module _ (e : Ends) (s : Synced e) (stream : ExitStream) (bytes : List ℕ)
        (small : length bytes ≤ max_payload_size) where
      carried_cell :
          (let command = MessageCommand.data_cell in
            let sent = sent_cell lib e.client sid command bytes in
            let last = apply_forward lib s.crypto.cipher bytes in
            let (arrived, hs) = carry lib world e.relays (some sent) in
            (arrived ≡ some (arrived_cell lib e.client s.crypto sid command bytes))
            × LinkedPath lib (wrap lib e.client.onion_keys.ciphers bytes).1 hs last.1)
      carried_cell =
          let sent = sent_cell lib e.client sid MessageCommand.data_cell bytes in
          carry-wrap lib world laws e.client.onion_keys.ciphers e.relays s.crypto.cipher sent bytes
            relayed_data
            (sent_cell-Fits lib laws e.client sid MessageCommand.data_cell bytes s.circuit_id_u32
              sid_u16 small).wire
            small s.path

      pub after_transmit-Synced : Synced (after_transmit e s stream bytes)
      after_transmit-Synced = record {
        crypto = after_open lib e.client s.crypto sid MessageCommand.data_cell bytes;
        has_crypto = refl;
        digest = refl;
        path = carried_cell.1;
        idle_writer = refl;
        circuit_id_u32 = s.circuit_id_u32;
      }

      pub transmit_lem :
          find sid e.exit.streams ≡ some stream
          → stream.closed ≡ false
          → transmit world sid bytes e ≡ after_transmit e s stream bytes
      unfolding handle_message
      transmit_lem found open_stream =
          let sent =
            send_message_lem lib laws e.client sid MessageCommand.data_cell bytes s.circuit_id_u32
              sid_u16 small world.rng s.idle_writer in
          let arrives = ap (λ t. (carry lib world e.relays t).0) sent.1 ∙ carried_cell.0 in
          let handled =
            handle_data-arrived lib laws e.client e.exit s.crypto stream sid bytes s.has_crypto
              s.digest found open_stream in
          let received = ap (receive world e.exit) arrives ∙ ap (λ t. t.1) handled in
          λ i. record {
            client = sent.2 i;
            relays = (carry lib world e.relays (sent.1 i)).1;
            exit = received i;
          }

    module _ (other : ℕ) (ne : other ≢ sid) where
      find_self : (v : ExitStream) (m : List (ℕ × ExitStream)) → find sid (insert sid v m) ≡ some v
      find_self v m = ground (arith, find-insert sid sid v m)

      find_other :
          (v : ExitStream) (m : List (ℕ × ExitStream)) → find other (insert sid v m) ≡ find other m
      find_other v m = ground (arith, find-insert sid other v m)

      -- Payloads of at most a cell each, sent one after another as DATA for a stream that the exit
      -- has open, all arrive: they stand behind what was queued for its destination, unchanged and
      -- in order, any other stream is untouched, and the two ends are in step again. This holds for
      -- any number of relays.
      pub transmit_all-Delivered :
          (chunks : List (List ℕ)) (e : Ends) (stream : ExitStream)
          → AllSmall chunks
          → Synced e
          → find sid e.exit.streams ≡ some stream
          → stream.closed ≡ false
          → Delivered sid other e stream chunks (transmit_all world sid chunks e)
      transmit_all-Delivered [] e stream small s found o = (
        s,
        found ∙ ap (λ q. some (record stream { queued = q })) (sym (append-nil stream.queued)),
        refl,
      )
      transmit_all-Delivered (bytes ∷ rest) e stream (small, smalls) s found o =
          let stream' = record stream { queued = stream.queued ++ (bytes ∷ []) } in
          let step = transmit_lem e s stream bytes small found o in
          let (s', found', others) =
            transmit_all-Delivered rest (after_transmit e s stream bytes) stream' smalls
              (after_transmit-Synced e s stream bytes small) (find_self stream' e.exit.streams) o in
          let back = sym (ap (transmit_all world sid rest) step) in
          subst (Delivered sid other e stream (bytes ∷ rest)) back (
            s',
            found'
                ∙ ap (λ q. some (record stream { queued = q }))
                    (append_assoc stream.queued (bytes ∷ []) rest),
            others ∙ find_other stream' e.exit.streams,
          )
