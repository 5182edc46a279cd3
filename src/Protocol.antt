-- ===== src/Protocol.antt =====
-- services/common/src/protocol.rs: the cells that clients and relays exchange. A `Vec<u8>` is a
-- list of numbers; a u32 or u16 field is a number whose range `IsWire` states. The variant `Data`
-- is `data_cell`, and the field `data` is `payload`.
pub mod Messages
pub mod Codec
pub mod Wire
use nopanic.Prelude.{
  ℕ, ◌+◌, ◌-◌, ◌<◌, ◌≡◌, List, [], ◌∷◌, Bool, if◌then◌else◌, ◌==◌, replicate, length, Result, ok,
  refl, err,
}

-- CELL_SIZE, HEADER_SIZE, PAYLOAD_LEN_SIZE, DIGEST_SIZE
abbrev pub cell_size : ℕ
cell_size = 514

abbrev pub header_size : ℕ
header_size = 11

abbrev pub payload_len_size : ℕ
payload_len_size = 2

abbrev pub digest_size : ℕ
digest_size = 4

abbrev pub max_payload_size : ℕ
max_payload_size = cell_size - header_size - payload_len_size - digest_size

pub data MessageCommand : Type 0 where
  padding create created extend extended destroy begin connected data_cell end : MessageCommand

-- `MessageCommand::to_u8`, the discriminants
unfoldable pub to_u8 : MessageCommand → ℕ
to_u8 padding = 0x00
to_u8 create = 0x01
to_u8 created = 0x02
to_u8 extend = 0x03
to_u8 extended = 0x04
to_u8 destroy = 0x05
to_u8 begin = 0x10
to_u8 connected = 0x11
to_u8 data_cell = 0x12
to_u8 end = 0x13

-- The error strings of `from_u8` and `from_bytes`, as values. `incomplete` is any of the
-- "Incomplete cell" messages, with the number of the field that is missing.
pub data ParseError : Type 0 where
  unknown_command : ℕ → ParseError
  cell_too_short : ℕ → ParseError
  invalid_length : ℕ → ParseError
  payload_exceeds : ℕ → ParseError
  incomplete : ℕ → ParseError

unfoldable pub from_u8 : ℕ → Result ParseError MessageCommand
from_u8 b =
    if b == 0x00
    then ok padding
    else (if b == 0x01
        then ok create
        else (if b == 0x02
            then ok created
            else (if b == 0x03
                then ok extend
                else (if b == 0x04
                    then ok extended
                    else (if b == 0x05
                        then ok destroy
                        else (if b == 0x10
                            then ok begin
                            else (if b == 0x11
                                then ok connected
                                else (if b == 0x12
                                    then ok data_cell
                                    else (if b == 0x13
                                        then ok end
                                        else err (unknown_command b))))))))))

pub from_u8-to_u8 : (c : MessageCommand) → from_u8 (to_u8 c) ≡ ok c
unfolding from_u8 to_u8
from_u8-to_u8 padding = refl
from_u8-to_u8 _ = refl

pub record Message : Type 0 where
  pub circuit_id : ℕ
  pub stream_id : ℕ
  pub command : MessageCommand
  pub payload : List ℕ
  pub digest : List ℕ

-- What the Rust types say of a message: a u32, a u16 and an array of four bytes.
pub record IsWire (m : Message) : Type 0 where
  pub circuit_id_u32 : m.circuit_id < 4294967296
  pub stream_id_u16 : m.stream_id < 65536
  pub digest_array : length m.digest ≡ 4

-- `==` of commands: the derived equality of a plain enum, by its discriminants.
abbrev pub command_eq : MessageCommand → MessageCommand → Bool
command_eq a b = to_u8 a == to_u8 b
