-- ===== src/Network/Conversation/InOrder.antt =====
-- Cells both ways on one circuit: every stream gets its own, in order.
use nopanic.Prelude.{
  ℕ, ◌≡◌, ◌∙◌, refl, ap, sym, subst, find, insert, find-insert, List, [], ◌∷◌, ◌++◌, Option, some,
  ==_iff, append-nil, append_assoc, ◌==◌, if◌then◌else◌, Bool-cases, inl, inr,
}
use mathlib.Core.Option.{some-injective}
use nopanic.Protocol.{Message, MessageCommand, to_u8}
use nopanic.Protocol.Messages.{new}
use nopanic.Crypto.Library.{Crypto, KeystreamLaws}
use nopanic.Crypto.{update_digest}
use nopanic.Client.Circuit.{Sender}
use nopanic.Relay.Context.{World}
use nopanic.Relay.Exit.{ExitCryptoState}
use nopanic.Relay.Exit.Streams.{ExitStream}
use nopanic.Network.Delivery.{Ends, after_transmit-Synced, transmit_lem}
use nopanic.Network.Answers.{after_respond-Synced, respond_lem}
use nopanic.Network.Conversation.{
  Event, up, down, ups_of, downs_of, ups, downs, InStep, step, converse, Opened, AllOpened,
  Conversed,
}

module _ {ℓ κ} {V : Type ℓ} {A : Type κ} (put : V → List A → V)
    (put-nil : (v : V) → put v [] ≡ v) where
  -- One entry has grown, and all others have grown by nothing.
  find-grown :
      (sid k : ℕ) (v w : V) (xs : List A) (m : List (ℕ × V))
      → find sid m ≡ some v
      → find k m ≡ some w
      → find k (insert sid (put v xs) m) ≡ some (put w (if sid == k then xs else []))
  find-grown sid k v w xs m here there = elim (Bool-cases (sid == k)) [
    | inl e ↦
        let same : sid ≡ k = (==_iff sid k).0 e in
        let one : v ≡ w = some-injective _ _ (sym here ∙ ap (λ j. find j m) same ∙ there) in
        rw (find-insert sid k (put v xs) m, e) (ap (λ u. some (put u xs)) one)
    | inr e ↦ rw (find-insert sid k (put v xs) m, e) (there ∙ ap some (sym (put-nil w)))
  ]

queue_more : ExitStream → List (List ℕ) → ExitStream
queue_more stream more = record stream { queued = stream.queued ++ more }

send_more : Sender → List Message → Sender
send_more sender more = record sender { sent = sender.sent ++ more }

queue_more-nil : (stream : ExitStream) → queue_more stream [] ≡ stream
unfolding queue_more
queue_more-nil stream = ap (λ q. record stream { queued = q }) (append-nil stream.queued)

send_more-nil : (sender : Sender) → send_more sender [] ≡ sender
unfolding send_more
send_more-nil sender = ap (λ q. record sender { sent = q }) (append-nil sender.sent)

module _ (lib : Crypto) (laws : KeystreamLaws lib) (world : World) where
  back_of :
      {a b : ExitCryptoState lib}
      → Path (Option (ExitCryptoState lib)) (some a) (some b)
      → b.backward_digest ≡ a.backward_digest
  back_of q = ap (λ t. t.backward_digest) (sym (some-injective _ _ q))

  up-Conversed :
      (sid : ℕ) (bytes : List ℕ) (e : Ends lib)
      → InStep lib e
      → Opened lib e (up sid bytes)
      → Conversed lib (up sid bytes ∷ []) e (step lib world (up sid bytes) e)
  unfolding queue_more send_more
  up-Conversed sid bytes e i (sid_u16, small, (stream, found, o)) =
      let s = i.synced in
      subst (Conversed lib (up sid bytes ∷ []) e)
        (sym (transmit_lem lib laws world sid sid_u16 e s stream bytes small found o))
        (record {
          in_step = record {
            synced = after_transmit-Synced lib laws world sid sid_u16 e s stream bytes small;
            back_digest = λ crypto q. back_of q ∙ i.back_digest s.crypto s.has_crypto;
            exit_id_u32 = i.exit_id_u32;
          };
          same_id = refl;
          queued = λ k other f.
              find-grown queue_more queue_more-nil sid k stream other (bytes ∷ []) e.exit.streams
                found f
              ∙ ap (λ q. some (queue_more other q)) (sym (append-nil _));
          sent = λ k sender f. f ∙ ap some (sym (send_more-nil sender));
        })

  down-Conversed :
      (sid : ℕ) (command : MessageCommand) (bytes : List ℕ) (e : Ends lib)
      → InStep lib e
      → Opened lib e (down sid command bytes)
      → Conversed lib (down sid command bytes ∷ []) e (step lib world (down sid command bytes) e)
  unfolding queue_more send_more
  down-Conversed sid command bytes e i (sid_u16, small, alive, (sender, found, o)) =
      let s = i.synced in
      subst (Conversed lib (down sid command bytes ∷ []) e)
        (sym (
          respond_lem lib laws world sid command bytes e s sender i.exit_id_u32 sid_u16 small
            (i.back_digest s.crypto s.has_crypto) alive found o))
        (record {
          in_step = record {
            synced =
                after_respond-Synced lib laws world sid command bytes e s sender i.exit_id_u32
                  sid_u16 small;
            back_digest = λ crypto q.
                back_of q
                ∙ ap (λ d. (update_digest lib d sid (to_u8 command) bytes).1)
                    (i.back_digest s.crypto s.has_crypto);
            exit_id_u32 = i.exit_id_u32;
          };
          same_id = refl;
          queued = λ k stream f. f ∙ ap some (sym (queue_more-nil stream));
          sent = λ k other f.
              find-grown send_more send_more-nil sid k sender other
                (new e.exit.context.circuit_id sid command bytes ∷ []) e.client.stream_senders found
                f
              ∙ ap (λ q. some (send_more other q)) (sym (append-nil _));
        })

  step-Conversed :
      (event : Event) (e : Ends lib)
      → InStep lib e
      → Opened lib e event
      → Conversed lib (event ∷ []) e (step lib world event e)
  step-Conversed (up sid bytes) e i o = up-Conversed sid bytes e i o
  step-Conversed (down sid command bytes) e i o = down-Conversed sid command bytes e i o

  -- What was open stays open.
  Opened-later :
      (past : List Event) (e e' : Ends lib)
      → Conversed lib past e e'
      → (event : Event) → Opened lib e event
      → Opened lib e' event
  Opened-later past e e' c (up sid bytes) (u, small, (stream, found, o)) = (
    u,
    small,
    (record stream { queued = stream.queued ++ ups sid past }, c.queued sid stream found, o),
  )
  Opened-later past e e' c (down sid command bytes) (u, small, alive, (sender, found, o)) =
      let more = downs e.exit.context.circuit_id sid past in
      (u, small, alive, (record sender { sent = sender.sent ++ more }, c.sent sid sender found, o))

  AllOpened-later :
      (past : List Event) (e e' : Ends lib)
      → Conversed lib past e e'
      → (events : List Event) → AllOpened lib e events
      → AllOpened lib e' events
  AllOpened-later past e e' c [] _ = tt
  AllOpened-later past e e' c (event ∷ rest) (o, os) =
      (Opened-later past e e' c event o, AllOpened-later past e e' c rest os)

  Conversed-cons :
      (event : Event) (rest : List Event) (e e1 e2 : Ends lib)
      → Conversed lib (event ∷ []) e e1
      → Conversed lib rest e1 e2
      → Conversed lib (event ∷ rest) e e2
  Conversed-cons event rest e e1 e2 a b =
      let cid = e.exit.context.circuit_id in
      record {
        in_step = b.in_step;
        same_id = b.same_id ∙ a.same_id;
        queued = λ k stream f.
            b.queued k _ (a.queued k stream f)
            ∙ ap (λ q. some (record stream { queued = q }))
                (append_assoc stream.queued (ups_of k event ++ []) (ups k rest)
                  ∙ ap (λ t. stream.queued ++ (t ++ ups k rest)) (append-nil (ups_of k event)));
        sent = λ k sender f.
            b.sent k _ (a.sent k sender f)
            ∙ ap
                (λ id. some (record sender {
                  sent = (sender.sent ++ (downs_of cid k event ++ [])) ++ downs id k rest;
                }))
                a.same_id
            ∙ ap (λ q. some (record sender { sent = q }))
                (append_assoc sender.sent (downs_of cid k event ++ []) (downs cid k rest)
                  ∙ ap (λ t. sender.sent ++ (t ++ downs cid k rest))
                      (append-nil (downs_of cid k event)));
      }

  -- Cells both ways, in any order and on any streams that are open at their receivers, at most a
  -- payload each, through any number of relays: afterwards the queue of each destination has
  -- exactly the data that the client sent on its stream, the client's channel of each stream exactly
  -- the cells that the exit sent on it, each in order, and the two ends are in step again.
  pub converse-Conversed :
      (events : List Event) (e : Ends lib)
      → InStep lib e
      → AllOpened lib e events
      → Conversed lib events e (converse lib world events e)
  converse-Conversed [] e i _ = record {
    in_step = i;
    same_id = refl;
    queued = λ k stream f.
        f ∙ ap (λ q. some (record stream { queued = q })) (sym (append-nil stream.queued));
    sent = λ k sender f.
        f ∙ ap (λ q. some (record sender { sent = q })) (sym (append-nil sender.sent));
  }
  converse-Conversed (event ∷ rest) e i (o, os) =
      let here = step-Conversed event e i o in
      Conversed-cons event rest e _ _ here (
        converse-Conversed rest (step lib world event e) here.in_step
          (AllOpened-later (event ∷ []) e _ here rest os))
