-- ===== src/Network/Conversation.antt =====
-- Cells both ways on one circuit, in any order: DATA of the client and cells of the exit's streams.
pub mod InOrder
use nopanic.Prelude.{
  ℕ, ◌≡◌, ◌≤◌, ◌<◌, ◌∙◌, refl, ap, sym, subst, find, insert, find-insert, List, [], ◌∷◌, ◌++◌, Bool,
  true, false, Option, some, length, arith, ==_iff, append-nil, append_assoc, ◌==◌, if◌then◌else◌,
  Bool-cases, inl, inr,
}
use mathlib.Core.Option.{some-injective}
use nopanic.Protocol.{Message, MessageCommand, max_payload_size, command_eq, destroy, to_u8}
use nopanic.Protocol.Messages.{new}
use nopanic.Crypto.Library.{Crypto, KeystreamLaws}
use nopanic.Crypto.{update_digest}
use nopanic.Client.Circuit.{Sender}
use nopanic.Relay.Context.{World}
use nopanic.Relay.Exit.{ExitCryptoState}
use nopanic.Relay.Exit.Streams.{ExitStream}
use nopanic.Network.Delivery.{
  Ends, Synced, transmit, after_transmit, after_transmit-Synced, transmit_lem,
}
use nopanic.Network.Answers.{respond, after_respond, after_respond-Synced, respond_lem}

-- DATA that the client sends on a stream, or a cell of the exit's stream.
pub data Event : Type 0 where
  up : ℕ → List ℕ → Event
  down : ℕ → MessageCommand → List ℕ → Event

-- What an event adds to the queue of a stream's destination, and to the client's channel.
abbrev pub ups_of : ℕ → Event → List (List ℕ)
ups_of k (up sid bytes) = if sid == k then bytes ∷ [] else []
ups_of k (down sid command bytes) = []

abbrev pub downs_of : ℕ → ℕ → Event → List Message
downs_of cid k (up sid bytes) = []
downs_of cid k (down sid command bytes) = if sid == k then new cid sid command bytes ∷ [] else []

abbrev pub ups : ℕ → List Event → List (List ℕ)
ups k [] = []
ups k (event ∷ rest) = ups_of k event ++ ups k rest

abbrev pub downs : ℕ → ℕ → List Event → List Message
downs cid k [] = []
downs cid k (event ∷ rest) = downs_of cid k event ++ downs cid k rest

module _ (lib : Crypto) where
  -- In step both ways.
  pub record InStep (e : Ends lib) : Type 0 where
    pub synced : Synced lib e
    pub back_digest :
        (crypto : ExitCryptoState lib)
        → e.exit.shared_state ≡ some crypto
        → crypto.backward_digest ≡ e.client.onion_keys.backward_digest
    pub exit_id_u32 : e.exit.context.circuit_id < 4294967296

  abbrev pub step : World → Event → Ends lib → Ends lib
  step world (up sid bytes) e = transmit lib world sid bytes e
  step world (down sid command bytes) e = respond lib world sid command bytes e

  abbrev pub converse : World → List Event → Ends lib → Ends lib
  converse world [] e = e
  converse world (event ∷ rest) e = converse world rest (step world event e)

  -- The event is on a stream that its receiver has open, and fits into a cell.
  abbrev pub Opened : Ends lib → Event → Type 0
  Opened e (up sid bytes) =
      (sid < 65536)
      × (length bytes ≤ max_payload_size)
      × ((stream : ExitStream) × (find sid e.exit.streams ≡ some stream) × (stream.closed ≡ false))
  Opened e (down sid command bytes) =
      (sid < 65536)
      × (length bytes ≤ max_payload_size)
      × (command_eq command destroy ≡ false)
      × ((sender : Sender) × (find sid e.client.stream_senders ≡ some sender)
          × (sender.receiver_gone ≡ false))

  abbrev pub AllOpened : Ends lib → List Event → Type 0
  AllOpened e [] = Unit {0}
  AllOpened e (event ∷ rest) = Opened e event × AllOpened e rest

  -- The ends behind some events: every open stream has got exactly its own data, in order.
  pub record Conversed (events : List Event) (e e' : Ends lib) : Type 0 where
    pub in_step : InStep e'
    pub same_id : e'.exit.context.circuit_id ≡ e.exit.context.circuit_id
    pub queued :
        (k : ℕ) (stream : ExitStream)
        → find k e.exit.streams ≡ some stream
        → find k e'.exit.streams ≡ some (record stream { queued = stream.queued ++ ups k events })
    pub sent :
        (k : ℕ) (sender : Sender)
        → find k e.client.stream_senders ≡ some sender
        → find k e'.client.stream_senders
          ≡ some (record sender { sent = sender.sent ++ downs e.exit.context.circuit_id k events })
