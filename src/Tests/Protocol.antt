-- ===== src/Tests/Protocol.antt =====
-- Cells of services/common/src/protocol.rs.
use nopanic.Prelude.{
  ℕ, zero, suc, IsBytes, u32_from_be, u16_from_be, array4, ◌≡◌, ◌≢◌, ◌≤◌, refl, List, [], ◌∷◌, ◌++◌,
  false, ok, err, length, take, replicate, arith,
}
use nopanic.Error.{payload_too_large}
use nopanic.Protocol.{
  Message, MessageCommand, IsWire, max_payload_size, cell_too_short, incomplete, from_u8,
}
use nopanic.Protocol.Codec.{to_bytes, from_bytes}
use nopanic.Protocol.Codec.Roundtrip.{carried, from_bytes-to_bytes}
use nopanic.Protocol.Codec.Accept.{from_bytes_short, from_bytes-ne-incomplete, to_bytes-from_bytes}
use nopanic.Protocol.Wire.{Writer, write_to_stream}
use nopanic.Protocol.Wire.Framing.{receive-send_all, receive, send_all, write_to_stream_refuses}

abbrev message : Message
message = record {
  circuit_id = 12345;
  stream_id = 678;
  command = MessageCommand.data_cell;
  payload = 1 ∷ 2 ∷ 3 ∷ 4 ∷ 5 ∷ [];
  digest = replicate 4 0;
}

abbrev zeros : ℕ → ℕ
zeros i = 0

message-IsWire : IsWire message
message-IsWire = record {
  circuit_id_u32 = omega arith;
  stream_id_u16 = omega arith;
  digest_array = refl;
}

-- `test_message_serialization`
serialization : from_bytes (to_bytes zeros message) ≡ ok message
unfolding to_bytes from_bytes
serialization = from_bytes-to_bytes zeros message message-IsWire

from_bytes-to_bytes_example : from_bytes (to_bytes zeros message) ≡ ok (carried message)
from_bytes-to_bytes_example = from_bytes-to_bytes zeros message message-IsWire

from_bytes_short_example : from_bytes (replicate 100 0) ≡ err (cell_too_short 100)
from_bytes_short_example = from_bytes_short (replicate 100 0) (omega arith)

from_bytes-ne-incomplete_example : from_bytes (replicate 600 0) ≢ err (incomplete 4)
from_bytes-ne-incomplete_example = from_bytes-ne-incomplete (replicate 600 0) 4

abbrev header : List ℕ
header =
    0 ∷ 0 ∷ 1 ∷ 254 ∷ 0 ∷ 0 ∷ 48 ∷ 57 ∷ 2 ∷ 166 ∷ 0x12 ∷ 0 ∷ 5 ∷ 0 ∷ 0 ∷ 0 ∷ 0 ∷ 1 ∷ 2 ∷ 3 ∷ 4 ∷ 5
    ∷ []

-- The cell of `message`, with zeros behind the payload.
abbrev cell : List ℕ
cell = header ++ replicate 492 0

zeros-IsBytes : (n : ℕ) → IsBytes (replicate n 0)
zeros-IsBytes zero = tt
zeros-IsBytes (suc n) = (omega arith, zeros-IsBytes n)

append-IsBytes : (xs ys : List ℕ) → IsBytes xs → IsBytes ys → IsBytes (xs ++ ys)
append-IsBytes [] ys p q = q
append-IsBytes (x ∷ xs) ys (h, p) q = (h, append-IsBytes xs ys p q)

cell-IsBytes : IsBytes cell
cell-IsBytes = append-IsBytes header (replicate 492 0) (omega arith) (zeros-IsBytes 492)

cell_accepted : from_bytes cell ≡ ok message
unfolding from_bytes u32_from_be u16_from_be from_u8 array4
cell_accepted = refl

to_bytes-from_bytes_example :
    IsWire message
    × (length message.payload ≤ max_payload_size)
    × (take 22 (to_bytes zeros message) ≡ take 22 cell)
to_bytes-from_bytes_example = to_bytes-from_bytes cell cell-IsBytes message cell_accepted zeros

abbrev end_message : Message
end_message = record message { command = MessageCommand.end; payload = [] }

end_message-IsWire : IsWire end_message
end_message-IsWire = record {
  circuit_id_u32 = omega arith;
  stream_id_u16 = omega arith;
  digest_array = refl;
}

receive-send_all_example :
    (let w =
        send_all zeros (message ∷ end_message ∷ []) (record { written = []; broken = false }) in
      receive 2 (record { incoming = w.written; broken = w.broken }) ≡ message ∷ end_message ∷ [])
receive-send_all_example = receive-send_all zeros (message ∷ end_message ∷ []) (
  record { wire = message-IsWire; small = omega arith },
  (record { wire = end_message-IsWire; small = omega arith }, tt),
)

abbrev oversized : Message
oversized = record message { payload = replicate 498 0xAB }

abbrev fresh : Writer
fresh = record { written = []; broken = false }

write_to_stream_refuses_example :
    write_to_stream zeros oversized fresh ≡ (err (payload_too_large 498 497), fresh)
write_to_stream_refuses_example = write_to_stream_refuses zeros oversized fresh (omega arith)
