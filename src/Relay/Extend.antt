-- ===== src/Relay/Extend.antt =====
-- services/relay-node/src/circuit/entry.rs and middle.rs: the part of `handle_extend` that reads the
-- payload and reaches the next hop. Both files have it, the middle relay with one check more.
pub mod Request
pub mod Reach
use nopanic.Prelude.{
  ℕ, ◌+◌, List, [], ◌∷◌, Option, none, some, Result, ok, err, ok_or, map_err, ensure, ◌>>=◌, ◌>>◌,
  not, length, take, drop, get_elem?, leb, ltb, ◌==◌, if◌then◌else◌,
}
use nopanic.Protocol.{Message, created, command_eq}
use nopanic.Protocol.Messages
use nopanic.Protocol.Wire.{Reader, Writer, IoError, from_stream, write_to_stream}
use nopanic.Relay.Utf8.{is_utf8}
use nopanic.Relay.Context.{
  HandlerError, extend_too_short, missing_address_separator, key_too_short,
  missing_fingerprint_separator, invalid_utf8, invalid_address, connect_failed, timed_out,
  closed_waiting, read_failed, write_failed, expected_created, Peer, World, NextHop,
}

-- `iter().position(|&b| b == 0)`
unfoldable pub position_zero : List ℕ → Option ℕ
position_zero [] = none
position_zero (b ∷ bs) =
    let rest = position_zero bs in
    if b == 0 then some 0 else elim rest [ none ↦ none | some i ↦ some (i + 1) ]

-- Where the next hop is, the client's key for it, and its certificate.
pub record ExtendRequest : Type 0 where
  pub addr : List ℕ
  pub client_public : List ℕ
  pub fingerprint : List ℕ

-- "address, 0, 32 bytes of key, 0, fingerprint"
unfoldable pub parse_extend : List ℕ → Result HandlerError ExtendRequest
parse_extend decrypted = do
  ensure (not (ltb (length decrypted) 33)) extend_too_short
  addr_end ← ok_or (position_zero decrypted) missing_address_separator
  let addr = take addr_end decrypted
  ensure (is_utf8 addr) invalid_utf8
  let key_start = addr_end + 1
  let key_end = key_start + 32
  ensure (leb key_end (length decrypted)) key_too_short
  let client_public = take 32 (drop key_start decrypted)
  separator ← ok_or (get_elem? decrypted key_end) missing_fingerprint_separator
  ensure (separator == 0) missing_fingerprint_separator
  let fingerprint = drop (key_end + 1) decrypted
  ensure (is_utf8 fingerprint) invalid_utf8
  ok (record { addr = addr; client_public = client_public; fingerprint = fingerprint })

-- What the read of the answer gave.
await_created :
    Writer → Result IoError (Option Message) × Reader → Result HandlerError (Message × NextHop)
await_created write (err e, reader) = err (read_failed e)
await_created write (ok none, reader) = err closed_waiting
await_created write (ok (some m), reader) =
    if command_eq m.command created
    then ok (m, record { write = write; read = some reader })
    else err (expected_created m.command)

-- CREATE is sent to the next hop, and CREATED awaited.
create_next : World → ℕ → List ℕ → Peer → Result HandlerError (Message × NextHop)
unfolding await_created
create_next world circuit_id client_public peer =
    let (sent, write) =
      write_to_stream world.rng (Messages.create circuit_id client_public) peer.write in
    do
      map_err write_failed sent
      ensure (not peer.silent) timed_out
      await_created write (from_stream (peer.answer write.written))

unfoldable pub reach_next : World → ℕ → List ℕ → Result HandlerError (Message × NextHop)
unfolding create_next
reach_next world circuit_id decrypted = do
  request ← parse_extend decrypted
  ensure (world.parse_addr request.addr) invalid_address
  peer ← ok_or (world.dial request.addr request.fingerprint) connect_failed
  create_next world circuit_id request.client_public peer
