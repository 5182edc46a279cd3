-- ===== src/Protocol/Wire/Framing.antt =====
-- A sequence of cells written to one end is read at the other, cell by cell.
use nopanic.Prelude.{
  ℕ, zero, suc, ◌≡◌, ◌≤◌, ◌<◌, ◌∙◌, sym, ap, refl, List, [], ◌∷◌, ◌++◌, append_assoc, append-nil,
  Bool, false, Option, none, some, Result, ok, err, length, take, drop, ltb, le→ltb_false, lt→ltb,
  take-append_left, drop-append_left, length-append, arith,
}
use nopanic.Protocol.{Message, IsWire, max_payload_size}
use nopanic.Protocol.Codec.{to_bytes, from_bytes}
use nopanic.Protocol.Codec.Layout.{length-to_bytes}
use nopanic.Protocol.Codec.Roundtrip.{from_bytes-to_bytes, carried_of_fits}
use nopanic.Error.{payload_too_large}
use nopanic.Protocol.Wire.{Reader, Writer, from_stream, write_to_stream, IoError, some_message}

-- A message that `write_to_stream` accepts.
pub record Fits (m : Message) : Type 0 where
  pub wire : IsWire m
  pub small : length m.payload ≤ max_payload_size

pub from_bytes-to_bytes-Fits :
    (rng : ℕ → ℕ) (m : Message) → Fits m → from_bytes (to_bytes rng m) ≡ ok m
from_bytes-to_bytes-Fits rng m f =
    from_bytes-to_bytes rng m f.wire ∙ ap ok (carried_of_fits m f.small)

cut_cell {ℓ} :
    {A : Type ℓ} (n : ℕ) (cell rest : List A)
    → length cell ≡ n
    → (take n (cell ++ rest) ≡ cell) × (drop n (cell ++ rest) ≡ rest)
cut_cell n cell rest h = (
  ap (λ k. take k (cell ++ rest)) (sym h) ∙ take-append_left cell rest,
  ap (λ k. drop k (cell ++ rest)) (sym h) ∙ drop-append_left cell rest,
)

-- A written cell is read back whole, and the reader stands at what follows it.
pub from_stream-to_bytes :
    (rng : ℕ → ℕ) (m : Message) (rest : List ℕ) (broken : Bool)
    → Fits m
    → from_stream (record { incoming = to_bytes rng m ++ rest; broken = broken })
      ≡ (ok (some m), record { incoming = rest; broken = broken })
unfolding from_stream
from_stream-to_bytes rng m rest broken f =
    let cell = to_bytes rng m in
    let n : length cell ≡ 514 = length-to_bytes rng m f.wire.digest_array in
    let (t, d) = cut_cell 514 cell rest n in
    let e : ltb (length (cell ++ rest)) 514 ≡ false =
      le→ltb_false 514 _ (omega (arith, length-append cell rest)) in
    rw (e, from_stream, t, d, from_bytes-to_bytes-Fits rng m f, some_message)

-- The writes of a list of messages, in order.
abbrev pub send_all : (ℕ → ℕ) → List Message → Writer → Writer
send_all rng [] w = w
send_all rng (m ∷ ms) w = send_all rng ms (write_to_stream rng m w).1

abbrev pub take_cell : Result IoError (Option Message) → List Message → List Message
take_cell (ok (some m)) rest = m ∷ rest
take_cell (ok none) rest = []
take_cell (err e) rest = []

-- Cells read until the stream ends or a cell is refused, `n` at most.
abbrev pub receive : ℕ → Reader → List Message
receive zero r = []
receive (suc n) r = let rest = receive n (from_stream r).1 in take_cell (from_stream r).0 rest

abbrev pub AllFit : List Message → Type 0
AllFit [] = Unit {0}
AllFit (m ∷ ms) = Fits m × AllFit ms

pub write_to_stream-Fits :
    (rng : ℕ → ℕ) (m : Message) (bytes : List ℕ)
    → Fits m
    → write_to_stream rng m (record { written = bytes; broken = false })
      ≡ (ok tt, record { written = bytes ++ to_bytes rng m; broken = false })
unfolding write_to_stream
write_to_stream-Fits rng m bytes f = rw (le→ltb_false _ _ f.small)

cells : (ℕ → ℕ) → List Message → List ℕ
cells rng [] = []
cells rng (m ∷ ms) = to_bytes rng m ++ cells rng ms

send_all-cells :
    (rng : ℕ → ℕ) (ms : List Message) (bytes : List ℕ)
    → AllFit ms
    → send_all rng ms (record { written = bytes; broken = false })
      ≡ record { written = bytes ++ cells rng ms; broken = false }
unfolding cells
send_all-cells rng [] bytes f =
    ap (λ t. record { written = t; broken = false }) (sym (append-nil bytes))
send_all-cells rng (m ∷ ms) bytes (f, fs) = rw (write_to_stream-Fits rng m bytes f) (
    send_all-cells rng ms (bytes ++ to_bytes rng m) fs
    ∙ ap (λ t. record { written = t; broken = false })
        (append_assoc bytes (to_bytes rng m) (cells rng ms)))

receive-cells :
    (rng : ℕ → ℕ) (ms : List Message)
    → AllFit ms
    → receive (length ms) (record { incoming = cells rng ms; broken = false }) ≡ ms
unfolding cells
receive-cells rng [] f = refl
receive-cells rng (m ∷ ms) (f, fs) =
    rw (receive, from_stream-to_bytes rng m (cells rng ms) false f)
      (ap (◌∷◌ m) (receive-cells rng ms fs))

-- Messages that fit, written one after another to a fresh stream, are read at the other end as
-- the same messages in the same order.
pub receive-send_all :
    (rng : ℕ → ℕ) (ms : List Message)
    → AllFit ms
    → (let w = send_all rng ms (record { written = []; broken = false }) in
        receive (length ms) (record { incoming = w.written; broken = w.broken }) ≡ ms)
receive-send_all rng ms f = rw (send_all-cells rng ms [] f) (receive-cells rng ms f)

-- A payload above the maximum is refused with its size, and nothing is written.
pub write_to_stream_refuses :
    (rng : ℕ → ℕ) (m : Message) (w : Writer)
    → max_payload_size < length m.payload
    → write_to_stream rng m w ≡ (err (payload_too_large (length m.payload) max_payload_size), w)
unfolding write_to_stream
write_to_stream_refuses rng m w h = rw (lt→ltb _ _ h)
