-- ===== src/Tests/Client.antt =====
-- A SOCKS connection over a stream.
use nopanic.Prelude.{◌≡◌, arith, replicate, some, List, [], ◌∷◌, true, false, ok, none}
use nopanic.Protocol.{MessageCommand}
use nopanic.Protocol.Messages
use nopanic.Crypto.Toy.{toy}
use nopanic.Protocol.Wire.{Reader}
use nopanic.Client.Circuit.{Circuit, ready, circuit_reader}
use nopanic.Client.Circuit.Closes.{Gone, circuit_reader-Gone}
use nopanic.Client.Stream.{
  StreamEvent, socks_data, cell, reader_round, socks_closed, message, handle_stream,
}
use nopanic.Client.Stream.Cleanup.{Left, handle_stream-Left}

abbrev client : Circuit toy
client = record {
  circuit_id = 1;
  state = ready;
  entry_writer = record { written = []; broken = false };
  onion_keys = record {
    session_keys = [];
    ciphers = record { forward = 2; backward = 3 } ∷ [];
    forward_digest = [];
    backward_digest = [];
  };
  stream_senders = [];
  next_stream_id = 4;
}

abbrev events : List StreamEvent
events =
    socks_data (1 ∷ 2 ∷ [])
    ∷ cell (Messages.new 1 4 MessageCommand.data_cell (9 ∷ [])) true
    ∷ reader_round (ok none)
    ∷ socks_closed
    ∷ []

handle_stream-Left_example :
    Left toy
      (λ i. i)
      4
      []
      (handle_stream toy
        (λ i. i)
        (b'a' ∷ [])
        []
        []
        (message (Messages.new 1 4 MessageCommand.connected []))
        true
        events
        client)
handle_stream-Left_example =
    handle_stream-Left toy (λ i. i) (b'a' ∷ []) [] []
      (message (Messages.new 1 4 MessageCommand.connected [])) true events client

abbrev reader : Reader
reader = record { incoming = replicate 1030 3; broken = true }

circuit_reader-Gone_example :
    (c : Circuit toy) × (circuit_reader toy 1031 reader client ≡ some c) × Gone toy c
circuit_reader-Gone_example = circuit_reader-Gone toy 1031 reader client (omega arith)
