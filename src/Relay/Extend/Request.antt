-- ===== src/Relay/Extend/Request.antt =====
-- The payload of EXTEND: what services/tor-client/src/core/circuit.rs writes, a relay's
-- `handle_extend` reads.
use nopanic.Prelude.{
  ℕ, suc, ◌+◌, ◌≡◌, ◌≢◌, ◌∙◌, refl, ap, sym, List, [], ◌∷◌, ◌++◌, true, false, some, ok, length,
  length-append, take, drop, get_elem?, leb, ltb, le→leb, le→ltb_false, take-append_left,
  drop-append_add, arith, ◌==◌, All,
}
use nopanic.Relay.Utf8.{is_utf8}
use nopanic.Relay.Extend.{position_zero, parse_extend}

-- The end of the address is found, since it has no zero byte.
position_zero-append :
    (addr rest : List ℕ)
    → All (λ b. b ≢ 0) addr
    → position_zero (addr ++ (0 ∷ rest)) ≡ some (length addr)
unfolding position_zero
position_zero-append [] rest h = refl
position_zero-append (b ∷ addr) rest (ne, h) =
    let e : (b == 0) ≡ false = ground (arith, ne) in
    rw (e, position_zero-append addr rest h) (ap some (omega arith))

get_elem?-append :
    {A : Type 0} (xs ys : List A) (n : ℕ) → get_elem? (xs ++ ys) (length xs + n) ≡ get_elem? ys n
get_elem?-append [] ys n = ap (get_elem? ys) (omega arith)
get_elem?-append (x ∷ xs) ys n =
    let e : length (x ∷ xs) + n ≡ suc (length xs + n) = omega arith in
    ap (get_elem? (x ∷ (xs ++ ys))) e ∙ get_elem?-append xs ys n

-- The fields of a request are read as they were written: the address without a zero byte, the key
-- of 32 bytes, and the fingerprint, both texts in UTF-8.
pub parse_extend-request :
    (addr key fingerprint : List ℕ)
    → All (λ b. b ≢ 0) addr
    → is_utf8 addr ≡ true
    → is_utf8 fingerprint ≡ true
    → length key ≡ 32
    → parse_extend (addr ++ (0 ∷ (key ++ (0 ∷ fingerprint))))
      ≡ ok (record { addr = addr; client_public = key; fingerprint = fingerprint })
unfolding parse_extend
parse_extend-request addr key fingerprint nonzero utf8 utf8' len =
    let tail : List ℕ = 0 ∷ (key ++ (0 ∷ fingerprint)) in
    let all : List ℕ = addr ++ tail in
    let total : length all ≡ length addr + (34 + length fingerprint) =
      omega (arith, length-append addr tail, length-append key (0 ∷ fingerprint)) in
    let long : ltb (length all) 33 ≡ false = le→ltb_false _ _ (omega arith) in
    let fits : leb (length addr + 1 + 32) (length all) ≡ true = le→leb _ _ (omega arith) in
    let key_at : take 32 (drop (length addr + 1) all) ≡ key =
      ap (take 32) (drop-append_add addr 1 tail)
      ∙ ap (λ n. take n (key ++ (0 ∷ fingerprint))) (sym len)
      ∙ take-append_left key (0 ∷ fingerprint) in
    let at_sep : length addr + 1 + 32 ≡ length addr + suc (length key + 0) = omega arith in
    let at_fp : length addr + 1 + 32 + 1 ≡ length addr + suc (length key + 1) = omega arith in
    let sep : get_elem? all (length addr + 1 + 32) ≡ some 0 =
      ap (get_elem? all) at_sep
      ∙ get_elem?-append addr tail (suc (length key + 0))
      ∙ get_elem?-append key (0 ∷ fingerprint) 0 in
    let fp : drop (length addr + 1 + 32 + 1) all ≡ fingerprint =
      ap (λ n. drop n all) at_fp
      ∙ drop-append_add addr (suc (length key + 1)) tail
      ∙ drop-append_add key 1 (0 ∷ fingerprint) in
    rw (
      long,
      position_zero-append addr _ nonzero,
      take-append_left addr tail,
      utf8,
      fits,
      key_at,
      sep,
      fp,
      utf8',
    )
