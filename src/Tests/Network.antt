-- ===== src/Tests/Network.antt =====
-- A circuit of three hops.
use nopanic.Prelude.{
  ℕ, ◌+◌, ◌≡◌, ◌≢◌, ◌<◌, ap, sym, refl, List, [], ◌∷◌, true, false, none, some, ok, find, replicate,
  arith,
}
use nopanic.Crypto.{CipherPair}
use nopanic.Crypto.Toy.{toy, toy-KeystreamLaws}
use mathlib.Core.Option.{some-injective}
use nopanic.Protocol.{MessageCommand, to_u8}
use nopanic.Client.Circuit.{Circuit, Sender, ready}
use nopanic.Client.Circuit.Ids.{after, next_id, next_id-after, next_id-cycle}
use nopanic.Relay.Context.{World, KeyPair, NextHop, CircuitContext, active}
use nopanic.Relay.Exit.{ExitHandler, ExitCryptoState}
use nopanic.Relay.Exit.Streams.{ExitStream}
use nopanic.Relay.Handler.{CircuitHandler, entry, middle}
use nopanic.Network.{idle, Linked}
use nopanic.Network.Conversation.{Event, up, down, InStep, AllOpened, Conversed, converse}
use nopanic.Network.Conversation.InOrder.{converse-Conversed}
use nopanic.Network.Delivery.{Ends, Synced, Delivered, transmit_all, transmit_all-Delivered}

abbrev world : World
world = record {
  rng = λ i. i;
  ephemeral = 9 ∷ [];
  parse_addr = λ addr. true;
  dial = λ addr fingerprint. none;
  connect = λ dest. ok tt;
}

abbrev pair : ℕ → CipherPair toy
pair n = record { forward = n; backward = n + 1 }

abbrev keypair : KeyPair
keypair = record { public = 7 ∷ []; secret_bytes = 7 ∷ [] }

abbrev context : ℕ → CircuitContext toy
context n = record {
  circuit_id = 1;
  state = active;
  session_key = none;
  cipher_pair = some (pair n);
}

abbrev hop : NextHop
hop = record { write = idle; read = none }

abbrev first_hop : CircuitHandler toy
first_hop = entry (record { context = context 2; keypair = keypair; next_hop = some hop })

abbrev second_hop : CircuitHandler toy
second_hop = middle (record { context = context 5; keypair = keypair; next_hop = some hop })

abbrev exit_crypto : ExitCryptoState toy
exit_crypto = record { cipher = pair 8; forward_digest = []; backward_digest = [] }

abbrev stream : ExitStream
stream = record { destination = []; closed = false; queued = [] }

abbrev exit : ExitHandler toy
exit = record {
  context = record (context 8) { cipher_pair = none };
  keypair = keypair;
  streams = (3, stream) ∷ [];
  shared_state = some exit_crypto;
}

abbrev client : Circuit toy
client = record {
  circuit_id = 1;
  state = ready;
  entry_writer = idle;
  onion_keys = record {
    session_keys = [];
    ciphers = pair 2 ∷ pair 5 ∷ pair 8 ∷ [];
    forward_digest = [];
    backward_digest = [];
  };
  stream_senders = [];
  next_stream_id = 1;
}

abbrev ends : Ends toy
ends = record { client = client; relays = first_hop ∷ second_hop ∷ []; exit = exit }

Linked-first : Linked toy (pair 2) first_hop
Linked-first = record { pair = refl; hop = hop; has_hop = refl; idle_hop = refl }

Linked-second : Linked toy (pair 5) second_hop
Linked-second = record { pair = refl; hop = hop; has_hop = refl; idle_hop = refl }

ends-Synced : Synced toy ends
ends-Synced = record {
  crypto = exit_crypto;
  has_crypto = refl;
  digest = refl;
  path = (Linked-first, (Linked-second, refl));
  idle_writer = refl;
  circuit_id_u32 = omega arith;
}

stream_found : find 3 exit.streams ≡ some stream
unfolding find
stream_found = refl

abbrev chunks : List (List ℕ)
chunks = (1 ∷ 2 ∷ []) ∷ [] ∷ replicate 497 7 ∷ []

transmit_all-Delivered_example :
    Delivered toy 3 4 ends stream chunks (transmit_all toy world 3 chunks ends)
transmit_all-Delivered_example =
    transmit_all-Delivered toy toy-KeystreamLaws world 3 (omega arith) 4 (omega arith) chunks ends
      stream (omega arith) ends-Synced stream_found refl

next_id-after_example : next_id toy (after toy 65539 client) ≡ 5
next_id-after_example = next_id-after toy 65539 client (omega arith) (omega arith)

next_id-cycle_example :
    (next_id toy (after toy 2 client) ≢ 0)
    × (next_id toy (after toy 2 client) ≢ next_id toy (after toy 9 client))
    × (next_id toy (after toy 65537 client) ≡ next_id toy (after toy 2 client))
next_id-cycle_example =
    next_id-cycle toy 2 9 client (omega arith) (omega arith) (omega arith) (omega arith)

-- The same ends, with a channel for the stream at the client.
abbrev sender : Sender
sender = record { receiver_gone = false; sent = [] }

abbrev talking : Ends toy
talking = record ends { client = record client { stream_senders = (3, sender) ∷ [] } }

talking-InStep : InStep toy talking
talking-InStep = record {
  synced = record {
    crypto = exit_crypto;
    has_crypto = refl;
    digest = refl;
    path = (Linked-first, (Linked-second, refl));
    idle_writer = refl;
    circuit_id_u32 = omega arith;
  };
  back_digest = λ crypto q. ap (λ s. s.backward_digest) (some-injective _ _ (sym q));
  exit_id_u32 = omega arith;
}

sender_found : find 3 talking.client.stream_senders ≡ some sender
unfolding find
sender_found = refl

-- A request, two cells back, and more of the request.
abbrev events : List Event
events =
    up 3 (1 ∷ 2 ∷ [])
    ∷ down 3 MessageCommand.data_cell (replicate 497 7)
    ∷ down 3 MessageCommand.end []
    ∷ up 3 []
    ∷ []

events-AllOpened : AllOpened toy talking events
unfolding to_u8
events-AllOpened =
    let u : 3 < 65536 = omega arith in
    (
      (u, omega arith, (stream, stream_found, refl)),
      (
        (u, omega arith, refl, (sender, sender_found, refl)),
        (
          (u, omega arith, refl, (sender, sender_found, refl)),
          ((u, omega arith, (stream, stream_found, refl)), tt),
        ),
      ),
    )

converse-Conversed_example : Conversed toy events talking (converse toy world events talking)
converse-Conversed_example =
    converse-Conversed toy toy-KeystreamLaws world events talking talking-InStep events-AllOpened
