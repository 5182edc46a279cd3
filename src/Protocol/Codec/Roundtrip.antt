-- ===== src/Protocol/Codec/Roundtrip.antt =====
-- Reading back what `to_bytes` writes.
use nopanic.Prelude.{
  ℕ, ◌*◌, subst, take_of_length-le, ◌+◌, ◌-◌, ◌%◌, ◌/◌, ◌≡◌, ◌∙◌, refl, ap, sym, min, List, [], ◌∷◌,
  ◌++◌, length, take, arith, length-append, length-take, u32_to_be, u16_to_be, ◌≤◌, ◌<◌,
  u32_from_be, u16_from_be, array4, take-append_left, leb, ok, le→leb, true,
}
use nopanic.Protocol.{Message, MessageCommand, max_payload_size, from_u8-to_u8, IsWire}
use nopanic.Protocol.Codec.{random_bytes, to_bytes, from_bytes}
use nopanic.Protocol.Codec.Layout.{length-random_bytes, header_fields, to_bytes_lem, array4_eta}

-- A header written out, any bytes behind it.
from_bytes-fields :
    (cid sid n a b c d : ℕ) (command : MessageCommand) (rest : List ℕ)
    → cid < 4294967296
    → sid < 65536
    → n ≤ 497
    → length rest ≡ 497
    → from_bytes (
        header_fields
          (record {
            circuit_id = cid;
            stream_id = sid;
            command = command;
            payload = [];
            digest = a ∷ b ∷ c ∷ d ∷ [];
          })
          n
        ++ rest)
      ≡ ok (record {
        circuit_id = cid;
        stream_id = sid;
        command = command;
        payload = take n rest;
        digest = a ∷ b ∷ c ∷ d ∷ [];
      })
unfolding from_bytes u32_to_be u16_to_be u32_from_be u16_from_be array4
from_bytes-fields cid sid n a b c d command rest hc hs hn hr =
    let e1 : cid / 16777216 % 256 * 16777216
          + cid / 65536 % 256 * 65536
          + cid / 256 % 256 * 256
          + cid % 256
        ≡ cid =
      omega arith in
    let e2 : sid / 256 % 256 * 256 + sid % 256 ≡ sid = omega arith in
    let e3 : n % 65536 / 256 % 256 * 256 + n % 65536 % 256 ≡ n = omega arith in
    let e4 : leb n 497 ≡ true = le→leb _ _ hn in
    let e5 : leb 17 (17 + n) ≡ true = le→leb 17 (17 + n) (omega arith) in
    let e6 : leb (17 + n) 514 ≡ true = le→leb (17 + n) 514 (omega arith) in
    let e7 : 17 + n - 17 ≡ n = omega arith in
    rw (hr, from_bytes, from_u8-to_u8, e1, e2, e3, e4, e5, e6, e7)

-- The part of the payload that a cell carries.
abbrev pub carried : Message → Message
carried m = record m { payload = take (min (length m.payload) max_payload_size) m.payload }

from_bytes-to_bytes_array :
    (rng : ℕ → ℕ) (m : Message) (a b c d : ℕ)
    → m.circuit_id < 4294967296
    → m.stream_id < 65536
    → (let m' = record m { digest = a ∷ b ∷ c ∷ d ∷ [] } in
        from_bytes (to_bytes rng m') ≡ ok (carried m'))
from_bytes-to_bytes_array rng m a b c d hc hs =
    let m' : Message = record m { digest = a ∷ b ∷ c ∷ d ∷ [] } in
    let n = min (length m.payload) 497 in
    let body = take n m.payload in
    let pad = random_bytes rng 0 (497 - n) in
    let len : length body ≡ n = omega (arith, length-take n m.payload) in
    let cut : take n (body ++ pad) ≡ body =
      ap (λ k. take k (body ++ pad)) (sym len) ∙ take-append_left body pad in
    let full : length (body ++ pad) ≡ 497 =
      omega (arith, length-append body pad, length-random_bytes rng 0 (497 - n)) in
    ap from_bytes (to_bytes_lem rng m' refl)
    ∙ from_bytes-fields m.circuit_id m.stream_id n a b c d m.command (body ++ pad) hc hs
        (omega arith) full
    ∙ ap (λ t. ok (record m' { payload = t })) cut

-- Whatever the padding, reading a written cell gives back the message with its payload cut at
-- `max_payload_size`.
pub from_bytes-to_bytes :
    (rng : ℕ → ℕ) (m : Message) → IsWire m → from_bytes (to_bytes rng m) ≡ ok (carried m)
from_bytes-to_bytes rng m w =
    let (a, b, c, d, e) = array4_eta m.digest w.digest_array in
    subst
      (λ g.
        from_bytes (to_bytes rng (record m { digest = g }))
        ≡ ok (carried (record m { digest = g })))
      (sym e) (from_bytes-to_bytes_array rng m a b c d w.circuit_id_u32 w.stream_id_u16)

pub carried_of_fits : (m : Message) → length m.payload ≤ max_payload_size → carried m ≡ m
carried_of_fits m h =
    let e : min (length m.payload) 497 ≡ length m.payload = omega arith in
    ap (λ t. record m { payload = t })
      (ap (λ k. take k m.payload) e ∙ take_of_length-le (length m.payload) m.payload (omega arith))
