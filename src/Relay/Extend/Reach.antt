-- ===== src/Relay/Extend/Reach.antt =====
-- services/relay-node/src/circuit/entry.rs and middle.rs: the next hop is reached.
use nopanic.Prelude.{ℕ, ◌≡◌, List, [], true, false, some, ok}
use nopanic.Protocol.{Message, command_eq, created}
use nopanic.Protocol.Codec.{to_bytes}
use nopanic.Protocol.Messages
use nopanic.Protocol.Wire.{Reader, from_stream}
use nopanic.Protocol.Wire.Framing.{Fits, write_to_stream-Fits}
use nopanic.Relay.Context.{World, Peer}
use nopanic.Relay.Extend.{parse_extend, ExtendRequest, reach_next, create_next, await_created}

-- A peer that can be dialled and answers CREATE with CREATED is the next hop.
pub reach_next_lem :
    (world : World) (circuit_id : ℕ) (bytes : List ℕ) (request : ExtendRequest) (peer : Peer)
    (m : Message) (reader : Reader)
    → parse_extend bytes ≡ ok request
    → world.parse_addr request.addr ≡ true
    → world.dial request.addr request.fingerprint ≡ some peer
    → peer.write ≡ record { written = []; broken = false }
    → peer.silent ≡ false
    → Fits (Messages.create circuit_id request.client_public)
    → (let create = to_bytes world.rng (Messages.create circuit_id request.client_public) in
        from_stream (peer.answer create) ≡ (ok (some m), reader)
        → command_eq m.command created ≡ true
        → reach_next world circuit_id bytes
          ≡ ok (
            m,
            record { write = record { written = create; broken = false }; read = some reader },
          ))
unfolding reach_next create_next await_created
reach_next_lem world circuit_id bytes request peer m reader parsed addr dialled fresh talks fits
      answer good =
    let sent =
      write_to_stream-Fits world.rng (Messages.create circuit_id request.client_public) [] fits in
    rw (parsed, addr, dialled, fresh, sent, talks, answer, good)
