-- ===== src/Strconv/Hex.antt =====
-- ParseInt in base 16 on lower-case digits.
use role_srv.Base.{
  refl, ℕ, ◌+◌, ◌-◌, ◌*◌, ◌^◌, ◌≤◌, ◌<◌, ◌≡◌, List, [], ◌∷◌, map, some, ltb, arith, pos, false,
  if◌then◌else◌, ◌==◌,
}
use role_srv.Strconv.{hex_digit, parse_hex, parse_int16}

-- The digits of a number in base 16, the most significant first, and the number.
abbrev pub AreDigits : List ℕ → Type 0
AreDigits [] = Unit
AreDigits (d ∷ ds) = (d < 16) × AreDigits ds

unfoldable pub digit_char : ℕ → ℕ
digit_char d = if ltb d 10 then 48 + d else 87 + d

abbrev pub number : ℕ → List ℕ → ℕ
number n [] = n
number n (d ∷ ds) = number (n * 16 + d) ds

le-number : (n : ℕ) (ds : List ℕ) → n ≤ number n ds
le-number n [] = omega arith
le-number n (d ∷ ds) = omega (arith, le-number (n * 16 + d) ds)

hex_digit-digit_char : (d : ℕ) → d < 16 → hex_digit (digit_char d) ≡ some d
unfolding digit_char
hex_digit-digit_char d h = ground arith

parse_hex-digits :
    (n : ℕ) (ds : List ℕ)
    → AreDigits ds
    → number n ds < 2 ^ 64
    → parse_hex n (map digit_char ds) ≡ some (number n ds)
unfolding parse_hex
parse_hex-digits n [] h small = refl
parse_hex-digits n (d ∷ ds) (below, rest) small =
    let fits : ltb (2 ^ 64 - 1) (n * 16 + d) ≡ false = ground (arith, le-number (n * 16 + d) ds) in
    rw (hex_digit-digit_char d below, parse_hex)
      (rw fits (parse_hex-digits (n * 16 + d) ds rest small))

le-digit_char : (d : ℕ) → 48 ≤ digit_char d
unfolding digit_char
le-digit_char d = ground arith

-- Reading lower-case digits in base 16 gives their number, below 2 ^ 63.
pub parse_int16-digits :
    (d : ℕ) (ds : List ℕ)
    → AreDigits (d ∷ ds)
    → number 0 (d ∷ ds) < 2 ^ 63
    → parse_int16 (map digit_char (d ∷ ds)) ≡ pos (number 0 (d ∷ ds))
unfolding parse_int16
parse_int16-digits d ds h small =
    let minus : (digit_char d == b'-') ≡ false = ground (arith, le-digit_char d) in
    let plus : (digit_char d == b'+') ≡ false = ground (arith, le-digit_char d) in
    rw (minus, plus, parse_hex-digits 0 (d ∷ ds) h (omega arith)) (ground arith)
