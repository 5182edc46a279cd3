-- ===== src/Client/Stream/Cleanup.antt =====
-- What a returned `handle_stream` leaves of its stream on the circuit.
use nopanic.Prelude.{
  ℕ, ◌≡◌, ◌∙◌, ap, sym, find, insert, find-insert, find-remove, List, [], Bool, true, false, not,
  ◌==◌, Option, none, some, Result, ok, err, arith, Bool-cases, Option-cases, inl, inr, ◌⊎◌, ◌∷◌,
  refl, ◌++◌,
}
use mathlib.Core.Option.{some-injective, some-ne-none}
use nopanic.Error.{TorError}
use nopanic.Protocol.{Message, MessageCommand, command_eq}
use nopanic.Protocol.Wire.{IoError}
use nopanic.Crypto.Library.{Crypto}
use nopanic.Client.Circuit.{
  Circuit, closed, deliver, read_round, open_backward, Sender, allocate_stream_id, register_stream,
  unregister_stream, send_message,
}
use nopanic.Client.Stream.{
  StreamError, begin_failed, circuit_closed, timed_out, expected_connected, reply_failed, Waited,
  message, channel_ended, elapsed, StreamEvent, StreamRun, Bridge, drop_receiver, cleanup_stream,
  returned, bridge, after_connected, begin_stream, open_stream, handle_stream, stream_loop,
  meanwhile,
}

module _ (lib : Crypto) (rng : ℕ → ℕ) (sid : ℕ)
    (opened : List (Result IoError (Option Message))) where
  -- A registered stream, unless the circuit has closed.
  abbrev Registered : Circuit lib → Type 0
  Registered c =
      ((c.state ≡ closed) × (find sid c.stream_senders ≡ none))
      ⊎ ((sender : Sender) × (find sid c.stream_senders ≡ some sender))

  -- What is left where BEGIN was not sent, by what the circuit's reader did before it. Where that did
  -- nothing, the stream is registered with an empty channel that has no receiver; else it is
  -- registered without a receiver, unless the circuit has closed.
  abbrev pub Unsent : List (Result IoError (Option Message)) → Circuit lib → Type 0
  Unsent [] c = find sid c.stream_senders ≡ some (record { receiver_gone = true; sent = [] })
  Unsent (read ∷ rest) c =
      ((c.state ≡ closed) × (find sid c.stream_senders ≡ none))
      ⊎ ((sender : Sender) × (find sid c.stream_senders ≡ some sender)
          × (sender.receiver_gone ≡ true))

  -- What is left of the stream, by what the function returned.
  abbrev pub LeftBehind : Result StreamError (Unit {0}) → Circuit lib → Type 0
  LeftBehind (ok _) c = find sid c.stream_senders ≡ none
  LeftBehind (err circuit_closed) c = find sid c.stream_senders ≡ none
  LeftBehind (err timed_out) c = find sid c.stream_senders ≡ none
  LeftBehind (err (expected_connected command)) c = find sid c.stream_senders ≡ none
  LeftBehind (err (begin_failed e)) c = Unsent opened c
  LeftBehind (err reply_failed) c =
      (sender : Sender) → find sid c.stream_senders ≡ some sender → sender.receiver_gone ≡ true

  find_self {ℓ} : {V : Type ℓ} (v : V) (m : List (ℕ × V)) → find sid (insert sid v m) ≡ some v
  find_self v m = ground (arith, find-insert sid sid v m)

  drop_receiver-none :
      (c : Circuit lib)
      → find sid c.stream_senders ≡ none
      → find sid (drop_receiver lib sid c).stream_senders ≡ none
  unfolding drop_receiver
  drop_receiver-none c e = rw (e, drop_receiver) e

  drop_receiver-some :
      (c : Circuit lib) (sender : Sender)
      → find sid c.stream_senders ≡ some sender
      → find sid (drop_receiver lib sid c).stream_senders
        ≡ some (record sender { receiver_gone = true })
  unfolding drop_receiver
  drop_receiver-some c sender e = rw (e, drop_receiver) (find_self _ c.stream_senders)

  cleanup_stream-none :
      (c : Circuit lib) → find sid (cleanup_stream lib rng sid c).stream_senders ≡ none
  unfolding cleanup_stream unregister_stream
  cleanup_stream-none c =
      let senders = (send_message lib rng c sid MessageCommand.end []).1.stream_senders in
      ground (arith, find-remove {V = Sender} sid sid senders)

  drop_receiver-gone :
      (c : Circuit lib) (sender : Sender)
      → find sid (drop_receiver lib sid c).stream_senders ≡ some sender
      → sender.receiver_gone ≡ true
  drop_receiver-gone c sender h = elim (Option-cases (find sid c.stream_senders)) [
    | inl e ↦ absurd (some-ne-none _ (sym h ∙ drop_receiver-none c e))
    | inr (old, e) ↦
        ap (λ t. t.receiver_gone) (some-injective _ _ (sym h ∙ drop_receiver-some c old e))
  ]

  -- Of a run that has returned.
  abbrev pub Left : StreamRun lib → Type 0
  Left (none, b) = Unit {0}
  Left (some result, b) = LeftBehind result b.circuit

  cleaned :
      (c : Circuit lib)
      → find sid (drop_receiver lib sid (cleanup_stream lib rng sid c)).stream_senders ≡ none
  cleaned c = drop_receiver-none (cleanup_stream lib rng sid c) (cleanup_stream-none c)

  bridge-Left :
      (replied : Bool) (events : List StreamEvent) (c : Circuit lib)
      → Left (bridge lib rng sid replied events c)
  unfolding bridge returned
  bridge-Left false events c = drop_receiver-gone c
  bridge-Left true events c =
      let b0 : Bridge lib = record { circuit = c; socks_written = [] } in
      elim (Bool-cases (stream_loop lib rng sid events b0).0) [
        | inl e ↦ rw e tt
        | inr e ↦ rw e (cleaned (stream_loop lib rng sid events b0).1.circuit)
      ]

  after_connected-Left :
      (waited : Waited) (replied : Bool) (events : List StreamEvent) (c : Circuit lib)
      → Left (after_connected lib rng sid waited replied events c)
  unfolding after_connected returned
  after_connected-Left channel_ended replied events c = cleaned c
  after_connected-Left elapsed replied events c = cleaned c
  after_connected-Left (message m) replied events c =
      elim (Bool-cases (command_eq m.command MessageCommand.connected)) [
        | inl e ↦ rw e (bridge-Left replied events c)
        | inr e ↦ rw e (cleaned c)
      ]

  closed_stays :
      (c : Circuit lib)
      → find sid c.stream_senders ≡ none
      → (drop_receiver lib sid c).state ≡ c.state
  unfolding drop_receiver
  closed_stays c e = rw (e, drop_receiver) refl

  inserted-Registered :
      (c : Circuit lib) (k : ℕ) (v : Sender)
      → Registered c
      → Registered (record c { stream_senders = insert k v c.stream_senders })
  inserted-Registered c k v reg =
      let found = find-insert k sid v c.stream_senders in
      elim (Bool-cases (k == sid)) [
        | inl q ↦
            let here : find sid (insert k v c.stream_senders) ≡ some v = found ∙ rw q refl in
            inr (v, here)
        | inr q ↦
            let same : find sid (insert k v c.stream_senders) ≡ find sid c.stream_senders =
              found ∙ rw q refl in
            elim reg [
              | inl (shut, absent) ↦ inl (shut, same ∙ absent)
              | inr (sender, here) ↦ inr (sender, same ∙ here)
            ]
      ]

  deliver-Registered : (c : Circuit lib) (m : Message) → Registered c → Registered (deliver lib c m)
  unfolding deliver
  deliver-Registered c m reg = elim (Option-cases (find m.stream_id c.stream_senders)) [
    | inl q ↦ rw (deliver, q) reg
    | inr (s, q) ↦ elim (Bool-cases s.receiver_gone) [
      | inl gone ↦ rw (deliver, q, gone) reg
      | inr there ↦ rw (deliver, q, there) (inserted-Registered c m.stream_id _ reg)
    ]
  ]

  read_round-Registered :
      (c : Circuit lib) (read : Result IoError (Option Message))
      → Registered c
      → Registered (read_round lib c read).1
  unfolding read_round open_backward find
  read_round-Registered c (err e) reg = inl (refl, refl)
  read_round-Registered c (ok none) reg = inl (refl, refl)
  read_round-Registered c (ok (some m)) reg =
      elim (Bool-cases (command_eq m.command MessageCommand.destroy)) [
        | inl d ↦ rw (read_round, d) (inl (refl, refl))
        | inr d ↦ elim (Bool-cases (not (open_backward lib c m).0)) [
          | inl bad ↦ rw (read_round, d, bad) (inl (refl, refl))
          | inr good ↦
              let (checked, plain, c') = open_backward lib c m in
              rw (read_round, d, good) (deliver-Registered c' plain reg)
        ]
      ]

  meanwhile-Registered :
      (reads : List (Result IoError (Option Message))) (c : Circuit lib)
      → Registered c
      → Registered (meanwhile lib reads c)
  meanwhile-Registered [] c reg = reg
  meanwhile-Registered (read ∷ rest) c reg =
      meanwhile-Registered rest (read_round lib c read).1 (read_round-Registered c read reg)

  -- What BEGIN is tried on.
  abbrev Opened : List (Result IoError (Option Message)) → Circuit lib → Type 0
  Opened [] c = find sid c.stream_senders ≡ some (record { receiver_gone = false; sent = [] })
  Opened (read ∷ rest) c = Registered c

  meanwhile-Opened :
      (reads : List (Result IoError (Option Message))) (c : Circuit lib)
      → find sid c.stream_senders ≡ some (record { receiver_gone = false; sent = [] })
      → Opened reads (meanwhile lib reads c)
  meanwhile-Opened [] c found = found
  meanwhile-Opened (read ∷ rest) c found =
      meanwhile-Registered rest (read_round lib c read).1
        (read_round-Registered c read (inr (_, found)))

  dropped-Unsent :
      (reads : List (Result IoError (Option Message))) (c : Circuit lib)
      → Opened reads c
      → Unsent reads (drop_receiver lib sid c)
  dropped-Unsent [] c found = drop_receiver-some c _ found
  dropped-Unsent (read ∷ rest) c (inl (shut, absent)) =
      inl (closed_stays c absent ∙ shut, drop_receiver-none c absent)
  dropped-Unsent (read ∷ rest) c (inr (sender, found)) =
      inr (record sender { receiver_gone = true }, drop_receiver-some c sender found, refl)

  begun-Left :
      (waited : Waited) (replied : Bool) (events : List StreamEvent)
      → (before : List (Result IoError (Option Message))) (c' : Circuit lib)
      → (sent : Result TorError (Unit {0})) → Opened opened c'
      → Left (elim sent [
        | err e ↦ returned lib sid (err (begin_failed e)) c' []
        | ok _ ↦ after_connected lib rng sid waited replied events (meanwhile lib before c')
      ])
  unfolding returned
  begun-Left waited replied events before c' (ok _) found =
      after_connected-Left waited replied events (meanwhile lib before c')
  begun-Left waited replied events before c' (err e) found = dropped-Unsent opened c' found

  -- BEGIN changes neither the state nor the streams.
  tried-Opened :
      (reads : List (Result IoError (Option Message))) (c : Circuit lib) (payload : List ℕ)
      → Opened reads c
      → Opened reads (send_message lib rng c sid MessageCommand.begin payload).1
  unfolding send_message
  tried-Opened [] c payload opened = opened
  tried-Opened (read ∷ rest) c payload opened = opened

module _ (lib : Crypto) (rng : ℕ → ℕ) where
  -- A `handle_stream` that returns leaves nothing of its stream registered on the circuit, whatever
  -- the exit, the reader and the SOCKS side do. The exceptions are the two writes whose error `?`
  -- returns at once. When BEGIN cannot be sent, the stream stays registered with a channel that
  -- nobody reads, an empty one where the circuit's reader did nothing before BEGIN, unless that has
  -- closed the circuit; when the SOCKS reply fails, what is left of it has no receiver.
  pub handle_stream-Left :
      (destination : List ℕ) (opened before : List (Result IoError (Option Message)))
      (waited : Waited) (replied : Bool) (events : List StreamEvent) (c : Circuit lib)
      → Left lib rng c.next_stream_id opened
          (handle_stream lib rng destination opened before waited replied events c)
  unfolding handle_stream begin_stream open_stream allocate_stream_id register_stream
  handle_stream-Left destination opened before waited replied events c =
      let sid = c.next_stream_id in
      let c1 = (open_stream lib c).1 in
      let at_begin =
        meanwhile-Opened lib rng sid opened opened c1
          (find_self lib rng sid opened _ c.stream_senders) in
      let (sent, sid', c') = begin_stream lib rng destination opened c in
      begun-Left lib rng sid opened waited replied events before c' sent (
        tried-Opened lib rng sid opened opened (meanwhile lib opened c1) (destination ++ (0 ∷ []))
          at_begin)
