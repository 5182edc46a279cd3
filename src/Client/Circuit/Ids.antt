-- ===== src/Client/Circuit/Ids.antt =====
-- The stream ids that a circuit gives out.
use nopanic.Prelude.{ℕ, zero, suc, ◌+◌, ◌-◌, ◌%◌, ◌<◌, ◌≡◌, ◌≢◌, ◌∙◌, arith}
use nopanic.Crypto.Library.{Crypto}
use nopanic.Client.Circuit.{Circuit, allocate_stream_id}

module _ (lib : Crypto) where
  -- The circuit after `n` allocations.
  unfoldable pub after : ℕ → Circuit lib → Circuit lib
  after zero c = c
  after (suc n) c = after n (allocate_stream_id lib c).1

  -- The id that the next allocation gives.
  abbrev pub next_id : Circuit lib → ℕ
  next_id c = (allocate_stream_id lib c).0

  next_id-allocate :
      (c : Circuit lib)
      → 0 < c.next_stream_id
      → c.next_stream_id < 65536
      → (allocate_stream_id lib c).1.next_stream_id ≡ c.next_stream_id % 65535 + 1
  unfolding allocate_stream_id
  next_id-allocate c p q = ground arith

  -- From an id that is neither 0 nor out of range on, the ids run through 1 to 65535 in turn, and
  -- begin again at 1: the one after `n` allocations is known.
  pub next_id-after :
      (n : ℕ) (c : Circuit lib)
      → 0 < c.next_stream_id
      → c.next_stream_id < 65536
      → next_id (after n c) ≡ (c.next_stream_id - 1 + n) % 65535 + 1
  unfolding after allocate_stream_id
  next_id-after zero c p q = omega arith
  next_id-after (suc n) c p q =
      let e = next_id-allocate c p q in
      next_id-after n (allocate_stream_id lib c).1 (omega (arith, e)) (omega (arith, e))
      ∙ omega (arith, e)

  -- So no id is 0, ids within 65535 allocations of one another differ, and the 65535th comes back.
  pub next_id-cycle :
      (i j : ℕ) (c : Circuit lib)
      → 0 < c.next_stream_id
      → c.next_stream_id < 65536
      → i < j
      → j < i + 65535
      → (next_id (after i c) ≢ 0)
        × (next_id (after i c) ≢ next_id (after j c))
        × (next_id (after (i + 65535) c) ≡ next_id (after i c))
  next_id-cycle i j c p q lt near =
      let a = next_id-after i c p q in
      let b = next_id-after j c p q in
      let d = next_id-after (i + 65535) c p q in
      (omega (arith, a), omega (arith, a, b), omega (arith, a, d))
