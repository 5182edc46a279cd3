-- ===== src/Protocol/Codec/Layout.antt =====
-- The cell that `to_bytes` writes, field by field.
use nopanic.Prelude.{
  ltb→lt, take_of_length-le, copy_at-append_at, copy_at-append_last, append_assoc, sym, ◌<◌, ℕ,
  zero, suc, ◌+◌, ◌-◌, ◌%◌, ◌≡◌, ◌∙◌, refl, ap, min, List, [], ◌∷◌, ◌++◌, length, take, replicate,
  copy_at, arith, length-append, length-take, length-replicate, u32_to_be, u16_to_be, ◌≤◌,
  Bool-cases, ltb, inl, inr, replicate_add, if◌then◌else◌,
}
use nopanic.Protocol.{Message, max_payload_size, to_u8, cell_size}
use nopanic.Protocol.Codec.{random_bytes, write_header, to_bytes}

pub length-random_bytes : (rng : ℕ → ℕ) (i n : ℕ) → length (random_bytes rng i n) ≡ n
unfolding random_bytes
length-random_bytes rng i zero = refl
length-random_bytes rng i (suc n) = ap suc (length-random_bytes rng (suc i) n)

abbrev pub header_fields : Message → ℕ → List ℕ
header_fields m data_len =
    u32_to_be 510
    ++ (u32_to_be m.circuit_id
        ++ (u16_to_be m.stream_id
            ++ (to_u8 m.command ∷ (u16_to_be (data_len % 65536) ++ m.digest))))

pub array4_eta : (xs : List ℕ) → length xs ≡ 4 → (a b c d : ℕ) × (xs ≡ a ∷ b ∷ c ∷ d ∷ [])
array4_eta (a ∷ b ∷ c ∷ d ∷ []) h = (a, b, c, d, refl)
array4_eta [] h = absurd (omega arith)
array4_eta (a ∷ []) h = absurd (omega arith)
array4_eta (a ∷ b ∷ []) h = absurd (omega arith)
array4_eta (a ∷ b ∷ c ∷ []) h = absurd (omega arith)
array4_eta (a ∷ b ∷ c ∷ d ∷ x ∷ xs) h = absurd (omega arith)

header_of_array :
    (m : Message) (n a b c d : ℕ)
    → m.digest ≡ a ∷ b ∷ c ∷ d ∷ []
    → write_header m n (replicate cell_size 0) ≡ header_fields m n ++ replicate 497 0
unfolding write_header u32_to_be u16_to_be
header_of_array m n a b c d e = rw (e, write_header)

write_header_lem :
    (m : Message) (n : ℕ)
    → length m.digest ≡ 4
    → write_header m n (replicate cell_size 0) ≡ header_fields m n ++ replicate 497 0
write_header_lem m n h =
    let (a, b, c, d, e) = array4_eta m.digest h in header_of_array m n a b c d e

pub length-header_fields :
    (m : Message) (n : ℕ) → length m.digest ≡ 4 → length (header_fields m n) ≡ 17
unfolding u32_to_be u16_to_be
length-header_fields m n h = omega arith

module _ (rng : ℕ → ℕ) (header body : List ℕ) (n : ℕ) (h : length header ≡ 17)
    (b : length body ≡ n) where
  body_lem :
      n ≤ 497
      → copy_at (header ++ replicate 497 0) 17 body ≡ header ++ (body ++ replicate (497 - n) 0)
  body_lem le =
      let split : 497 ≡ n + (497 - n) = omega arith in
      let e : replicate 497 0 ≡ replicate n 0 ++ replicate (497 - n) 0 =
        ap (λ k. replicate k 0) split ∙ replicate_add n (497 - n) 0 in
      ap (λ t. copy_at (header ++ t) 17 body) e
      ∙ copy_at-append_at header body (replicate n 0) (replicate (497 - n) 0) 17 h
          (length-replicate n 0 ∙ sym b)

  padding_lem :
      n < 497
      → copy_at (header ++ (body ++ replicate (497 - n) 0)) (17 + n) (random_bytes rng 0 (497 - n))
        ≡ header ++ (body ++ random_bytes rng 0 (497 - n))
  padding_lem lt =
      ap (λ t. copy_at t (17 + n) (random_bytes rng 0 (497 - n)))
        (sym (append_assoc header body (replicate (497 - n) 0)))
      ∙ copy_at-append_last (header ++ body) (random_bytes rng 0 (497 - n)) (replicate (497 - n) 0)
          (17 + n) (omega (arith, length-append header body))
          (length-replicate (497 - n) 0 ∙ sym (length-random_bytes rng 0 (497 - n)))
      ∙ append_assoc header body (random_bytes rng 0 (497 - n))

  -- The payload and the padding behind a header of 17 bytes.
  fill_lem :
      n ≤ 497
      → (if ltb n 497
          then copy_at
              (copy_at (header ++ replicate 497 0) 17 body)
              (17 + n)
              (random_bytes rng 0 (514 - (17 + n)))
          else copy_at (header ++ replicate 497 0) 17 body)
        ≡ header ++ (body ++ random_bytes rng 0 (497 - n))
  unfolding random_bytes
  fill_lem le = elim (Bool-cases (ltb n 497)) [
    | inl lt ↦
        let e : 514 - (17 + n) ≡ 497 - n = omega arith in
        rw (lt, body_lem le, e) (padding_lem (ltb→lt n 497 lt))
    | inr full ↦ let e : 497 - n ≡ 0 = ground arith in rw (full, body_lem le, e, random_bytes)
  ]

-- The cell that is written: the header, the payload cut at the maximum, and the padding.
pub to_bytes_lem :
    (rng : ℕ → ℕ) (m : Message)
    → length m.digest ≡ 4
    → (let n = min (length m.payload) 497 in
        to_bytes rng m ≡ header_fields m n ++ (take n m.payload ++ random_bytes rng 0 (497 - n)))
unfolding to_bytes
to_bytes_lem rng m h =
    let n = min (length m.payload) 497 in
    let header = header_fields m n in
    rw (write_header_lem m n h) (
      fill_lem rng header (take n m.payload) n (length-header_fields m n h)
        (omega (arith, length-take n m.payload)) (omega arith))

pub length-to_bytes :
    (rng : ℕ → ℕ) (m : Message) → length m.digest ≡ 4 → length (to_bytes rng m) ≡ cell_size
length-to_bytes rng m h =
    let n = min (length m.payload) 497 in
    let header = header_fields m n in
    let body = take n m.payload in
    let pad = random_bytes rng 0 (497 - n) in
    omega (
      arith,
      ap length (to_bytes_lem rng m h),
      length-append header (body ++ pad),
      length-append body pad,
      length-header_fields m n h,
      length-take n m.payload,
      length-random_bytes rng 0 (497 - n),
    )

-- The same for a payload that fits.
pub to_bytes-of_fits :
    (rng : ℕ → ℕ) (m : Message)
    → length m.digest ≡ 4
    → length m.payload ≤ max_payload_size
    → to_bytes rng m
      ≡ header_fields m (length m.payload)
        ++ (m.payload ++ random_bytes rng 0 (497 - length m.payload))
to_bytes-of_fits rng m h fits =
    let e : min (length m.payload) 497 ≡ length m.payload = omega arith in
    to_bytes_lem rng m h
    ∙ ap (λ n. header_fields m n ++ (take n m.payload ++ random_bytes rng 0 (497 - n))) e
    ∙ ap
        (λ t.
          header_fields m (length m.payload) ++ (t ++ random_bytes rng 0 (497 - length m.payload)))
        (take_of_length-le (length m.payload) m.payload (omega arith))
