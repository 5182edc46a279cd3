-- ===== src/Protocol/Codec.antt =====
-- services/common/src/protocol.rs: `Message::to_bytes` and `Message::from_bytes`.
pub mod Layout
pub mod Roundtrip
pub mod Fields
pub mod Accept
use nopanic.Prelude.{
  ℕ, zero, suc, ◌+◌, ◌-◌, ◌%◌, min, List, [], ◌∷◌, Option, none, some, Result, ok, err, ok_or,
  ◌>>=◌, ◌>>◌, ensure, not, length, take, get_elem?, get_range, copy_at, replicate, leb, ltb, ◌==◌,
  if◌then◌else◌, u32_to_be, u16_to_be, u32_from_be, u16_from_be, array4,
}
use nopanic.Protocol.{
  Message, ParseError, cell_too_short, invalid_length, payload_exceeds, incomplete, cell_size,
  header_size, payload_len_size, digest_size, max_payload_size, to_u8, from_u8,
}

-- The bytes of `rand::rng().fill(..)`: those that the generator yields from its `i`th on.
unfoldable pub random_bytes : (ℕ → ℕ) → ℕ → ℕ → List ℕ
random_bytes rng i zero = []
random_bytes rng i (suc n) = (rng i % 256) ∷ random_bytes rng (suc i) n

-- DATA_START
abbrev pub data_start : ℕ
data_start = header_size + payload_len_size + digest_size

-- The header fields, written into the zeroed cell in the order of the code.
unfoldable pub write_header : Message → ℕ → List ℕ → List ℕ
write_header m data_len cell =
    let cell1 = copy_at cell 0 (u32_to_be (cell_size - 4)) in
    let cell2 = copy_at cell1 4 (u32_to_be m.circuit_id) in
    let cell3 = copy_at cell2 8 (u16_to_be m.stream_id) in
    let cell4 = copy_at cell3 10 (to_u8 m.command ∷ []) in
    let cell5 = copy_at cell4 11 (u16_to_be (data_len % 65536)) in copy_at cell5 13 m.digest

unfoldable pub to_bytes : (ℕ → ℕ) → Message → List ℕ
unfolding write_header
to_bytes rng m =
    let data_len = min (length m.payload) max_payload_size in
    let header = write_header m data_len (replicate cell_size 0) in
    let cell = copy_at header data_start (take data_len m.payload) in
    if ltb data_len max_payload_size
    then copy_at cell (data_start + data_len)
        (random_bytes rng 0 (cell_size - (data_start + data_len)))
    else cell

unfoldable pub from_bytes : List ℕ → Result ParseError Message
from_bytes bytes = do
  ensure (not (ltb (length bytes) cell_size)) (cell_too_short (length bytes))
  length_bytes ← ok_or (get_range bytes 0 4) (incomplete 0)
  len ← ok_or (u32_from_be length_bytes) (incomplete 0)
  ensure (len == cell_size - 4) (invalid_length len)
  circuit_bytes ← ok_or (get_range bytes 4 8) (incomplete 4)
  circuit_id ← ok_or (u32_from_be circuit_bytes) (incomplete 4)
  stream_bytes ← ok_or (get_range bytes 8 10) (incomplete 8)
  stream_id ← ok_or (u16_from_be stream_bytes) (incomplete 8)
  command_byte ← ok_or (get_elem? bytes 10) (incomplete 10)
  command ← from_u8 command_byte
  payload_len_bytes ← ok_or (get_range bytes 11 13) (incomplete 11)
  payload_len ← ok_or (u16_from_be payload_len_bytes) (incomplete 11)
  ensure (leb payload_len max_payload_size) (payload_exceeds payload_len)
  digest_slice ← ok_or (get_range bytes 13 17) (incomplete 13)
  digest ← ok_or (array4 digest_slice) (incomplete 13)
  payload ← ok_or (get_range bytes data_start (data_start + payload_len)) (incomplete 17)
  ok (record {
    circuit_id = circuit_id;
    stream_id = stream_id;
    command = command;
    payload = payload;
    digest = digest;
  })
