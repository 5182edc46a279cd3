-- ===== src/Client/Stream.antt =====
-- services/tor-client/src/core/stream.rs: `handle_stream`, a SOCKS connection over a stream of a
-- circuit. What happens outside is an argument: the answer of the SOCKS side to each write, and the
-- events that the function wakes up on, with what the circuit's reader does between them.
pub mod Cleanup
use nopanic.Prelude.{
  ℕ, find, insert, List, [], ◌∷◌, ◌++◌, Bool, true, false, not, Option, none, some, Result, ok, err,
  chunks, if◌then◌else◌,
}
use nopanic.Error.{TorError}
use nopanic.Protocol.{Message, MessageCommand, command_eq, max_payload_size}
use nopanic.Protocol.Wire.{IoError}
use nopanic.Crypto.Library.{Crypto}
use nopanic.Client.Circuit.{
  Circuit, Sender, allocate_stream_id, register_stream, unregister_stream, send_message, read_round,
}

-- The `anyhow` errors of the function, one for each message.
pub data StreamError : Type 0 where
  begin_failed : TorError → StreamError
  circuit_closed timed_out : StreamError
  expected_connected : MessageCommand → StreamError
  reply_failed : StreamError

-- How the wait for CONNECTED ends: a message, the end of the channel, or the timeout.
pub data Waited : Type 0 where
  message : Message → Waited
  channel_ended elapsed : Waited

-- What the loop wakes up on. `reader_round` is no event of the loop: the circuit's reader has the
-- circuit meanwhile.
pub data StreamEvent : Type 0 where
  socks_closed socks_failed socks_idle channel_closed : StreamEvent
  socks_data : List ℕ → StreamEvent
  cell : Message → Bool → StreamEvent
  reader_round : Result IoError (Option Message) → StreamEvent

module _ (lib : Crypto) where
  -- The circuit, and the bytes that the SOCKS side was sent.
  pub record Bridge : Type 0 where
    pub circuit : Circuit lib
    pub socks_written : List ℕ

  -- What follows the drop of the receiver: the sender stays where it is.
  unfoldable pub drop_receiver : ℕ → Circuit lib → Circuit lib
  drop_receiver sid c = elim (find sid c.stream_senders) [
    | none ↦ c
    | some sender ↦ record c {
      stream_senders = insert sid (record sender { receiver_gone = true }) c.stream_senders;
    }
  ]

  -- `cleanup_stream`: END is sent where that works, and the stream is unregistered.
  unfoldable pub cleanup_stream : (ℕ → ℕ) → ℕ → Circuit lib → Circuit lib
  cleanup_stream rng sid c =
      unregister_stream lib (send_message lib rng c sid MessageCommand.end []).1 sid

  -- The loop over the chunks, which ends with the first that fails: whether none did.
  unfoldable pub send_data : (ℕ → ℕ) → ℕ → List (List ℕ) → Circuit lib → Bool × Circuit lib
  send_data rng sid [] c = (true, c)
  send_data rng sid (chunk ∷ rest) c =
      let (sent, c') = send_message lib rng c sid MessageCommand.data_cell chunk in
      let next = send_data rng sid rest c' in elim sent [ err e ↦ (false, c') | ok _ ↦ next ]

  -- A cell of the stream: DATA is written to the SOCKS side, END ends the loop.
  take_message : Message → Bool → Bridge → Bool × Bridge
  take_message m written b =
      if command_eq m.command MessageCommand.data_cell
      then (
        written,
        if written then record b { socks_written = b.socks_written ++ m.payload } else b,
      )
      else (if command_eq m.command MessageCommand.end then (false, b) else (true, b))

  -- One turn of the loop: whether it goes on.
  unfoldable pub stream_round : (ℕ → ℕ) → ℕ → StreamEvent → Bridge → Bool × Bridge
  unfolding take_message send_data
  stream_round rng sid socks_closed b = (false, b)
  stream_round rng sid socks_failed b = (false, b)
  stream_round rng sid socks_idle b = (false, b)
  stream_round rng sid channel_closed b = (false, b)
  stream_round rng sid (socks_data bytes) b =
      let (sent, c) = send_data rng sid (chunks max_payload_size bytes) b.circuit in
      (sent, record b { circuit = c })
  stream_round rng sid (cell m written) b = take_message m written b
  stream_round rng sid (reader_round read) b =
      (true, record b { circuit = (read_round lib b.circuit read).1 })

  -- The loop over the events that come: whether it still runs.
  unfoldable pub stream_loop : (ℕ → ℕ) → ℕ → List StreamEvent → Bridge → Bool × Bridge
  unfolding stream_round
  stream_loop rng sid [] b = (true, b)
  stream_loop rng sid (event ∷ rest) b =
      let (goes_on, b') = stream_round rng sid event b in
      let next = stream_loop rng sid rest b' in elim goes_on [ false ↦ (false, b') | true ↦ next ]

  -- The circuit behind some rounds of its reader.
  abbrev pub meanwhile : List (Result IoError (Option Message)) → Circuit lib → Circuit lib
  meanwhile [] c = c
  meanwhile (read ∷ rest) c = meanwhile rest (read_round lib c read).1

  -- The result, where the function has returned, and what is left.
  abbrev pub StreamRun : Type 0
  StreamRun = Option (Result StreamError (Unit {0})) × Bridge

  returned : ℕ → Result StreamError (Unit {0}) → Circuit lib → List ℕ → StreamRun
  unfolding drop_receiver
  returned sid result c written =
      (some result, record { circuit = drop_receiver sid c; socks_written = written })

  bridge : (ℕ → ℕ) → ℕ → Bool → List StreamEvent → Circuit lib → StreamRun
  unfolding returned stream_loop cleanup_stream
  bridge rng sid replied events c =
      let (runs, b) = stream_loop rng sid events (record { circuit = c; socks_written = [] }) in
      if not replied
      then returned sid (err reply_failed) c []
      else (if runs
          then (none, b)
          else returned sid (ok tt) (cleanup_stream rng sid b.circuit) b.socks_written)

  after_connected : (ℕ → ℕ) → ℕ → Waited → Bool → List StreamEvent → Circuit lib → StreamRun
  unfolding bridge
  after_connected rng sid channel_ended replied events c =
      returned sid (err circuit_closed) (cleanup_stream rng sid c) []
  after_connected rng sid elapsed replied events c =
      returned sid (err timed_out) (cleanup_stream rng sid c) []
  after_connected rng sid (message m) replied events c =
      if command_eq m.command MessageCommand.connected
      then bridge rng sid replied events c
      else returned sid (err (expected_connected m.command)) (cleanup_stream rng sid c) []

  -- A stream enters the circuit under the next id, under one lock.
  unfoldable pub open_stream : Circuit lib → ℕ × Circuit lib
  open_stream c =
      let (sid, c1) = allocate_stream_id lib c in
      (sid, register_stream lib c1 sid (record { receiver_gone = false; sent = [] }))

  -- The circuit with the new stream, when BEGIN was tried under the next lock, with the result. The
  -- circuit's reader may have its rounds between the two locks.
  unfoldable pub begin_stream :
      (ℕ → ℕ)
      → List ℕ
      → List (Result IoError (Option Message))
      → Circuit lib
      → Result TorError (Unit {0}) × ℕ × Circuit lib
  unfolding open_stream
  begin_stream rng destination opened c =
      let (sid, c1) = open_stream c in
      let (sent, c2) =
        send_message lib rng (meanwhile opened c1) sid MessageCommand.begin
          (destination ++ (0 ∷ [])) in
      (sent, sid, c2)

  -- `handle_stream`, with the rounds of the circuit's reader before BEGIN and before CONNECTED. Both
  -- writes whose error is returned by `?` do not unregister the stream.
  unfoldable pub handle_stream :
      (ℕ → ℕ)
      → List ℕ
      → List (Result IoError (Option Message))
      → List (Result IoError (Option Message))
      → Waited
      → Bool
      → List StreamEvent
      → Circuit lib
      → StreamRun
  unfolding after_connected begin_stream
  handle_stream rng destination opened before waited replied events c =
      let (sent, sid, c') = begin_stream rng destination opened c in
      elim sent [
        | err e ↦ returned sid (err (begin_failed e)) c' []
        | ok _ ↦ after_connected rng sid waited replied events (meanwhile before c')
      ]
