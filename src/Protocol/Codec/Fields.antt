-- ===== src/Protocol/Codec/Fields.antt =====
-- A buffer of at least a cell, with its header bytes written out.
use nopanic.Prelude.{ℕ, ◌+◌, ◌*◌, ◌≡◌, refl, List, ◌∷◌, length, arith, ◌≤◌}

abbrev pub u32_of : ℕ → ℕ → ℕ → ℕ → ℕ
u32_of a b c d = a * 16777216 + b * 65536 + c * 256 + d

abbrev pub u16_of : ℕ → ℕ → ℕ
u16_of a b = a * 256 + b

-- A buffer whose header is written out.
pub record Split : Type 0 where
  pub l0 : ℕ
  pub l1 : ℕ
  pub l2 : ℕ
  pub l3 : ℕ
  pub c0 : ℕ
  pub c1 : ℕ
  pub c2 : ℕ
  pub c3 : ℕ
  pub s0 : ℕ
  pub s1 : ℕ
  pub command : ℕ
  pub n0 : ℕ
  pub n1 : ℕ
  pub d0 : ℕ
  pub d1 : ℕ
  pub d2 : ℕ
  pub d3 : ℕ
  pub rest : List ℕ

abbrev pub joined : Split → List ℕ
joined s =
    s.l0 ∷ s.l1 ∷ s.l2 ∷ s.l3 ∷ s.c0 ∷ s.c1 ∷ s.c2 ∷ s.c3 ∷ s.s0 ∷ s.s1 ∷ s.command ∷ s.n0 ∷ s.n1
    ∷ s.d0 ∷ s.d1 ∷ s.d2 ∷ s.d3 ∷ s.rest

pub split : (bytes : List ℕ) → 514 ≤ length bytes → (s : Split) × (bytes ≡ joined s)
split
      (l0 ∷ l1 ∷ l2 ∷ l3 ∷ c0 ∷ c1 ∷ c2 ∷ c3 ∷ s0 ∷ s1 ∷ command ∷ n0 ∷ n1 ∷ d0 ∷ d1 ∷ d2 ∷ d3
        ∷ rest)
      h =
    (
      record {
        l0 = l0;
        l1 = l1;
        l2 = l2;
        l3 = l3;
        c0 = c0;
        c1 = c1;
        c2 = c2;
        c3 = c3;
        s0 = s0;
        s1 = s1;
        command = command;
        n0 = n0;
        n1 = n1;
        d0 = d0;
        d1 = d1;
        d2 = d2;
        d3 = d3;
        rest = rest;
      },
      refl,
    )
split _ h = absurd (omega arith)
