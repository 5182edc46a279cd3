-- ===== src/Protocol/Wire/Progress.antt =====
-- A cell that is read shortens what is still to come.
use nopanic.Prelude.{
  ◌≡◌, ◌<◌, refl, sym, ◌∙◌, true, if◌then◌else◌, some, ok, err, length, ltb, ltb_false→le,
  Bool-cases, inl, inr, length-drop, arith,
}
use nopanic.Protocol.{Message}
use nopanic.Protocol.Wire.{Reader, IoError, from_stream, parse_or_close, unexpected_eof, other}

no_cell : (b : IoError) (m : Message) → parse_or_close (err b) ≡ ok (some m) → ⊥
unfolding parse_or_close
no_cell b m h = ground (arith, h)

cut_short :
    (r : Reader)
    → ltb (length r.incoming) 514 ≡ true
    → (from_stream r).0 ≡ parse_or_close (err (if r.broken then other else unexpected_eof))
unfolding from_stream
cut_short r short = rw (from_stream, short) refl

pub from_stream-shorter :
    (r : Reader) (m : Message)
    → (from_stream r).0 ≡ ok (some m)
    → length (from_stream r).1.incoming < length r.incoming
unfolding from_stream
from_stream-shorter r m h = elim (Bool-cases (ltb (length r.incoming) 514)) [
  | inl short ↦ absurd (no_cell _ m (sym (cut_short r short) ∙ h))
  | inr whole ↦
      rw (from_stream, whole)
        (omega (arith, length-drop 514 r.incoming, ltb_false→le 514 (length r.incoming) whole))
]
