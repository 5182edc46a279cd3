-- ===== src/Protocol/Wire.antt =====
-- services/common/src/protocol.rs: `read_from`, `from_stream`, `write_to_stream`, `write_to`.
-- A reader holds the bytes that are still to come and whether it then ends or fails; a writer holds
-- the bytes written so far and whether it has failed. A write that fails writes nothing.
pub mod Framing
pub mod Progress
use nopanic.Prelude.{
  ℕ, ◌≡◌, List, [], ◌∷◌, ◌++◌, Bool, true, false, Option, none, some, Result, ok, err, map_err,
  length, take, drop, ltb, if◌then◌else◌,
}
use nopanic.Error.{TorError, io, payload_too_large}
use nopanic.Protocol.{Message, ParseError, cell_size, max_payload_size}
use nopanic.Protocol.Codec.{to_bytes, from_bytes}

pub record Reader : Type 0 where
  pub incoming : List ℕ
  pub broken : Bool

pub record Writer : Type 0 where
  pub written : List ℕ
  pub broken : Bool

-- `io::Error`, by its kind.
pub data IoError : Type 0 where
  unexpected_eof : IoError
  invalid_data : ParseError → IoError
  other : IoError

-- `read_exact` of a buffer of the size of a cell
unfoldable pub read_exact : Reader → Result IoError (List ℕ) × Reader
read_exact r =
    if ltb (length r.incoming) cell_size
    then (err (if r.broken then other else unexpected_eof), record r { incoming = [] })
    else (ok (take cell_size r.incoming), record r { incoming = drop cell_size r.incoming })

parse_cell : Result IoError (List ℕ) → Result IoError Message
parse_cell (ok buf) = map_err invalid_data (from_bytes buf)
parse_cell (err e) = err e

-- `Message::read_from`
unfoldable pub read_from : Reader → Result IoError Message × Reader
unfolding read_exact parse_cell
read_from r = let (buf, r') = read_exact r in (parse_cell buf, r')

some_message : Result ParseError Message → Result IoError (Option Message)
some_message (ok m) = ok (some m)
some_message (err e) = err (invalid_data e)

parse_or_close : Result IoError (List ℕ) → Result IoError (Option Message)
unfolding some_message
parse_or_close (ok buf) = some_message (from_bytes buf)
parse_or_close (err unexpected_eof) = ok none
parse_or_close (err e) = err e

-- `Message::from_stream`: the end of the stream, within a cell too, is `None`.
unfoldable pub from_stream : Reader → Result IoError (Option Message) × Reader
unfolding read_exact parse_or_close
from_stream r = let (read, r') = read_exact r in (parse_or_close read, r')

-- `write_all`
unfoldable pub write_all : Writer → List ℕ → Result TorError (Unit {0}) × Writer
write_all w bytes =
    if w.broken then (err io, w) else (ok tt, record w { written = w.written ++ bytes })

-- `Message::write_to_stream`
unfoldable pub write_to_stream : (ℕ → ℕ) → Message → Writer → Result TorError (Unit {0}) × Writer
unfolding write_all
write_to_stream rng m w =
    if ltb max_payload_size (length m.payload)
    then (err (payload_too_large (length m.payload) max_payload_size), w)
    else write_all w (to_bytes rng m)

-- `Message::write_to` has no check of the size.
unfoldable pub write_to : (ℕ → ℕ) → Message → Writer → Result TorError (Unit {0}) × Writer
unfolding write_all
write_to rng m w = write_all w (to_bytes rng m)
