-- ===== src/Relay/Utf8.antt =====
-- `std::str::from_utf8` as the handlers use it: whether the bytes are well-formed UTF-8.
use nopanic.Prelude.{ℕ, List, [], ◌∷◌, Bool, true, false, ◌&&◌, ◌==◌, leb, if◌then◌else◌}

-- The bytes that have to follow a first byte, each as the bounds of its range.
abbrev followers : ℕ → List (ℕ × ℕ)
followers b =
    if b == 0xE0
    then (0xA0, 0xBF) ∷ (0x80, 0xBF) ∷ []
    else (if b == 0xED
        then (0x80, 0x9F) ∷ (0x80, 0xBF) ∷ []
        else (if b == 0xF0
            then (0x90, 0xBF) ∷ (0x80, 0xBF) ∷ (0x80, 0xBF) ∷ []
            else (if b == 0xF4
                then (0x80, 0x8F) ∷ (0x80, 0xBF) ∷ (0x80, 0xBF) ∷ []
                else (if leb b 0xDF
                    then (0x80, 0xBF) ∷ []
                    else (if leb b 0xEF
                        then (0x80, 0xBF) ∷ (0x80, 0xBF) ∷ []
                        else (0x80, 0xBF) ∷ (0x80, 0xBF) ∷ (0x80, 0xBF) ∷ [])))))

abbrev expect : List (ℕ × ℕ) → List ℕ → Bool
expect [] [] = true
expect (r ∷ rs) [] = false
expect ((lo, hi) ∷ rs) (b ∷ bs) = (leb lo b && leb b hi) && expect rs bs
expect [] (b ∷ bs) =
    if leb b 0x7F then expect [] bs else ((leb 0xC2 b && leb b 0xF4) && expect (followers b) bs)

unfoldable pub is_utf8 : List ℕ → Bool
is_utf8 bytes = expect [] bytes
