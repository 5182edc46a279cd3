-- ===== src/Protocol/Codec/Accept.antt =====
-- What `from_bytes` accepts, and what it answers to everything else.
use nopanic.Prelude.{
  subst, take-append_left, u32_to_be_of, u16_to_be_of, ◌%◌, ℕ, ◌+◌, ◌-◌, ◌≡◌, ◌≢◌, ◌∙◌, ap, sym,
  List, [], ◌∷◌, ◌++◌, length, take, arith, length-take, u32_to_be, u16_to_be, ◌≤◌, ◌<◌,
  u32_from_be, u16_from_be, array4, ◌==◌, ensure, ◌>>=◌, ◌>>◌, Bool-cases, ltb, lt→ltb, ltb→lt, inl,
  inr, leb, Result, ok, err, le→leb, IsBytes, take-append_add, leb→le, true, false,
}
use nopanic.Protocol.{
  Message, MessageCommand, ParseError, cell_too_short, invalid_length, payload_exceeds, incomplete,
  max_payload_size, to_u8, from_u8, IsWire, cell_size,
}
use nopanic.Protocol.Codec.Layout.{header_fields, to_bytes-of_fits}
use nopanic.Protocol.Codec.{random_bytes, to_bytes, from_bytes}
use nopanic.Protocol.Codec.Fields.{Split, joined, split, u32_of, u16_of}

-- The checks in their order, on the fields of a long enough buffer.
decode : Split → Result ParseError Message
decode s =
    let len = u32_of s.l0 s.l1 s.l2 s.l3 in
    let n = u16_of s.n0 s.n1 in
    do
      ensure (len == 510) (invalid_length len)
      command ← from_u8 s.command
      ensure (leb n 497) (payload_exceeds n)
      ok (record {
        circuit_id = u32_of s.c0 s.c1 s.c2 s.c3;
        stream_id = u16_of s.s0 s.s1;
        command = command;
        payload = take n s.rest;
        digest = s.d0 ∷ s.d1 ∷ s.d2 ∷ s.d3 ∷ [];
      })

module _ (s : Split) (k : ℕ) (len : length (joined s) ≡ k) (long : 514 ≤ k) where
  from_bytes-decode : from_bytes (joined s) ≡ decode s
  unfolding from_bytes decode u32_from_be u16_from_be array4
  from_bytes-decode =
      let e0 : ltb k 514 ≡ false = ground arith in
      let e4 : leb 4 k ≡ true = le→leb 4 k (omega arith) in
      let e8 : leb 8 k ≡ true = le→leb 8 k (omega arith) in
      let e10 : leb 10 k ≡ true = le→leb 10 k (omega arith) in
      let e13 : leb 13 k ≡ true = le→leb 13 k (omega arith) in
      let e17 : leb 17 k ≡ true = le→leb 17 k (omega arith) in
      let n : ℕ = u16_of s.n0 s.n1 in
      elim (Bool-cases (leb n 497)) [
        | inl fits ↦
            let bound : n ≤ 497 = leb→le n 497 fits in
            let e1 : leb 17 (17 + n) ≡ true = le→leb 17 (17 + n) (omega arith) in
            let e2 : leb (17 + n) k ≡ true = le→leb (17 + n) k (omega arith) in
            let e3 : 17 + n - 17 ≡ n = omega arith in
            rw (len, from_bytes, e0, e4, e8, e10, e13, e17, fits, e1, e2, e3)
        | inr big ↦ rw (len, from_bytes, e0, e4, e8, e10, e13, e17, big, decode)
      ]

-- A buffer shorter than a cell is refused with its length.
pub from_bytes_short :
    (bytes : List ℕ)
    → length bytes < cell_size
    → from_bytes bytes ≡ err (cell_too_short (length bytes))
unfolding from_bytes
from_bytes_short bytes h =
    let e : ltb (length bytes) 514 ≡ true = lt→ltb (length bytes) 514 h in rw (e, from_bytes)

from_bytes-decode_of :
    (bytes : List ℕ) (s : Split)
    → bytes ≡ joined s
    → 514 ≤ length bytes
    → from_bytes bytes ≡ decode s
from_bytes-decode_of bytes s e h =
    ap from_bytes e ∙ from_bytes-decode s (length bytes) (ap length (sym e)) h

decode-ne-incomplete : (s : Split) (k : ℕ) → decode s ≢ err (incomplete k)
unfolding decode from_u8
decode-ne-incomplete s k = ground arith

-- No buffer makes `from_bytes` answer one of its "Incomplete cell" errors: past the first check
-- every slice is there.
pub from_bytes-ne-incomplete : (bytes : List ℕ) (k : ℕ) → from_bytes bytes ≢ err (incomplete k)
from_bytes-ne-incomplete bytes k h = elim (Bool-cases (ltb (length bytes) 514)) [
  | inl short ↦ let e = from_bytes_short bytes (ltb→lt (length bytes) 514 short) in cc
  | inr long ↦
      let le : 514 ≤ length bytes = ground arith in
      let (s, e) = split bytes le in
      decode-ne-incomplete s k (sym (from_bytes-decode_of bytes s e le) ∙ h)
]

to_u8-from_u8 : (b : ℕ) (c : MessageCommand) → from_u8 b ≡ ok c → to_u8 c ≡ b
unfolding from_u8 to_u8
to_u8-from_u8 b c h = ground arith

-- What an accepted header holds.
record Accepted (s : Split) (m : Message) : Type 0 where
  len : u32_of s.l0 s.l1 s.l2 s.l3 ≡ 510
  circuit : m.circuit_id ≡ u32_of s.c0 s.c1 s.c2 s.c3
  stream : m.stream_id ≡ u16_of s.s0 s.s1
  command : to_u8 m.command ≡ s.command
  fits : u16_of s.n0 s.n1 ≤ 497
  payload : m.payload ≡ take (u16_of s.n0 s.n1) s.rest
  digest : m.digest ≡ s.d0 ∷ s.d1 ∷ s.d2 ∷ s.d3 ∷ []

decode-Accepted : (s : Split) (m : Message) → decode s ≡ ok m → Accepted s m
unfolding decode
decode-Accepted s m h = ground (arith, to_u8-from_u8 s.command m.command)

module _ (s : Split) (m : Message) (v : IsBytes (joined s)) (a : Accepted s m) where
  accepted_header :
      header_fields m (u16_of s.n0 s.n1)
      ≡ s.l0 ∷ s.l1 ∷ s.l2 ∷ s.l3 ∷ s.c0 ∷ s.c1 ∷ s.c2 ∷ s.c3 ∷ s.s0 ∷ s.s1 ∷ s.command ∷ s.n0
        ∷ s.n1 ∷ s.d0 ∷ s.d1 ∷ s.d2 ∷ s.d3 ∷ []
  accepted_header =
      let open_len =
        ap u32_to_be (sym a.len)
        ∙ u32_to_be_of s.l0 s.l1 s.l2 s.l3 (omega arith) (omega arith) (omega arith)
            (omega arith) in
      let open_circuit =
        ap u32_to_be a.circuit
        ∙ u32_to_be_of s.c0 s.c1 s.c2 s.c3 (omega arith) (omega arith) (omega arith)
            (omega arith) in
      let open_stream =
        ap u16_to_be a.stream ∙ u16_to_be_of s.s0 s.s1 (omega arith) (omega arith) in
      let small : u16_of s.n0 s.n1 % 65536 ≡ u16_of s.n0 s.n1 = omega (arith, a.fits) in
      let open_word = ap u16_to_be small ∙ u16_to_be_of s.n0 s.n1 (omega arith) (omega arith) in
      rw (open_len, open_circuit, open_stream, open_word, a.command, a.digest)

  module _ (long : 514 ≤ length (joined s)) where
    accepted_length : length m.payload ≡ u16_of s.n0 s.n1
    accepted_length =
        omega (arith, ap length a.payload, length-take (u16_of s.n0 s.n1) s.rest, a.fits)

    accepted_IsWire : IsWire m
    accepted_IsWire = record {
      circuit_id_u32 = omega (arith, a.circuit);
      stream_id_u16 = omega (arith, a.stream);
      digest_array = ap length a.digest;
    }

    accepted_prefix :
        (rng : ℕ → ℕ)
        → take (17 + length m.payload) (to_bytes rng m) ≡ take (17 + length m.payload) (joined s)
    accepted_prefix rng =
        let n = length m.payload in
        let header : List ℕ =
          s.l0 ∷ s.l1 ∷ s.l2 ∷ s.l3 ∷ s.c0 ∷ s.c1 ∷ s.c2 ∷ s.c3 ∷ s.s0 ∷ s.s1 ∷ s.command ∷ s.n0
          ∷ s.n1 ∷ s.d0 ∷ s.d1 ∷ s.d2 ∷ s.d3 ∷ [] in
        let pad = random_bytes rng 0 (497 - n) in
        let e : header_fields m n ≡ header =
          ap (header_fields m) accepted_length ∙ accepted_header in
        let written : to_bytes rng m ≡ header ++ (m.payload ++ pad) =
          to_bytes-of_fits rng m accepted_IsWire.digest_array
            (omega (arith, accepted_length, a.fits))
          ∙ ap (λ t. t ++ (m.payload ++ pad)) e in
        let read : take n s.rest ≡ m.payload =
          ap (λ k. take k s.rest) accepted_length ∙ sym a.payload in
        ap (take (17 + n)) written
        ∙ take-append_add header n (m.payload ++ pad)
        ∙ ap (◌++◌ header) (take-append_left m.payload pad ∙ sym read)
        ∙ sym (take-append_add header n s.rest)

module _ (bytes : List ℕ) (v : IsBytes bytes) (m : Message)
    (accepted : from_bytes bytes ≡ ok m) where
  long_enough : 514 ≤ length bytes
  long_enough = elim (Bool-cases (ltb (length bytes) 514)) [
    | inl short ↦
        let e = from_bytes_short bytes (ltb→lt (length bytes) 514 short) in
        let impossible : ok m ≡ err (cell_too_short (length bytes)) = sym accepted ∙ e in cc
    | inr long ↦ ground arith
  ]

  -- A message that `from_bytes` returns is well formed and fits a cell, and writing it again gives
  -- the bytes that were read, up to the end of the payload.
  pub to_bytes-from_bytes :
      (rng : ℕ → ℕ)
      → IsWire m
        × (length m.payload ≤ max_payload_size)
        × (take (17 + length m.payload) (to_bytes rng m) ≡ take (17 + length m.payload) bytes)
  to_bytes-from_bytes rng =
      let (s, e) = split bytes long_enough in
      let a = decode-Accepted s m (sym (from_bytes-decode_of bytes s e long_enough) ∙ accepted) in
      let v' : IsBytes (joined s) = subst IsBytes e v in
      let long : 514 ≤ length (joined s) = omega (arith, ap length e, long_enough) in
      (
        accepted_IsWire s m v' a long,
        omega (arith, accepted_length s m v' a long, a.fits),
        accepted_prefix s m v' a long rng ∙ ap (take (17 + length m.payload)) (sym e),
      )
