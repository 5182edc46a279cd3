-- ===== src/Client/Builder/Exchange.antt =====
-- services/tor-client/src/core/circuit.rs: a message of the builder that is answered.
use nopanic.Prelude.{[], ◌≡◌, ◌∙◌, ap, false, Option, none, some, Result, ok, err}
use nopanic.Error.{TorError}
use nopanic.Protocol.{Message}
use nopanic.Protocol.Codec.{to_bytes}
use nopanic.Protocol.Wire.{Reader, Writer, IoError, from_stream}
use nopanic.Protocol.Wire.Framing.{Fits, write_to_stream-Fits}
use nopanic.Crypto.Library.{Crypto}
use nopanic.Client.Builder.{
  BuilderError, send_failed, read_failed, connection_closed, Outside, RelayStream, exchange,
  arrived,
}

module _ (lib : Crypto) (outside : Outside) where
  -- A connection on which everything is read on both sides.
  abbrev pub standing : outside.Remote → RelayStream lib outside
  standing remote = record {
    write = record { written = []; broken = false };
    unread = [];
    remote = remote;
  }

  pub exchange_lem :
      (m answer : Message) (remote remote' : outside.Remote) (r : Reader)
      → Fits m
      → outside.react remote (to_bytes outside.rng m) ≡ (some r, remote')
      → from_stream r ≡ (ok (some answer), record { incoming = []; broken = false })
      → exchange lib outside m (standing remote) ≡ (ok answer, standing remote')
  unfolding exchange arrived
  exchange_lem m answer remote remote' r fits reacts reads =
      let at = standing remote in
      ap
        (λ (t : Result TorError (Unit {0}) × Writer).
          let (a, next) = outside.react remote t.1.written in
          elim t.0 as (λ x. Result BuilderError Message × RelayStream lib outside) [
            | err e ↦ (err (send_failed e), record at { write = t.1 })
            | ok _ ↦
                arrived lib outside
                  (record at { write = record t.1 { written = [] }; remote = next }) a
          ])
        (write_to_stream-Fits outside.rng m [] fits)
      ∙ ap (λ t. arrived lib outside (record at { remote = t.1 }) t.0) reacts
      ∙ ap
          (λ (t : Result IoError (Option Message) × Reader). (
            elim t.0 as (λ x. Result BuilderError Message) [
              | err e ↦ err (read_failed e)
              | ok none ↦ err connection_closed
              | ok (some m) ↦ ok m
            ],
            record (standing remote') { unread = t.1.incoming },
          ))
          reads
