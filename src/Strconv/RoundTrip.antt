-- ===== src/Strconv/RoundTrip.antt =====
-- Printing and reading a number back.
use mathlib.Core.List.{append_assoc, append-nil}
use native.Mathlib.Nat.{pow-suc, mul_comm}
use role_srv.Base.{
  ℕ, zero, suc, ◌+◌, ◌-◌, ◌*◌, ◌/◌, ◌%◌, ◌^◌, ◌≤◌, ◌<◌, ◌≡◌, [], ◌∷◌, ◌++◌, some, Str, ltb, arith,
  ℤ, pos, negsuc, ◌∙◌, Bool, true, false, if◌then◌else◌, neg, ◌==◌, Bool-cases, inl, inr, ap,
}
use role_srv.Strconv.{parse_uint, uint_value, parse_int, signed, decimal, format_int}

parse_uint-digit :
    (max n d m : ℕ) (s : Str)
    → d < 10
    → m ≤ max
    → n * 10 + d ≡ m
    → parse_uint max n ((48 + d) ∷ s) ≡ parse_uint max m s
unfolding parse_uint
parse_uint-digit max n d m s small fits e =
    let digit : 48 + d - 48 ≡ d = omega arith in rw (digit, e) (ground arith)

parse_uint-decimal :
    (max fuel n : ℕ) (s : Str)
    → n < fuel
    → n ≤ max
    → parse_uint max 0 (decimal fuel n ++ s) ≡ parse_uint max n s
unfolding decimal
parse_uint-decimal max zero n s h fits = elim h [ ]
parse_uint-decimal max (suc fuel) n s h fits = elim (Bool-cases (ltb n 10)) [
  | inl small ↦ rw small (parse_uint-digit max 0 n n s (ground arith) fits (omega arith))
  | inr large ↦
      rw (large, append_assoc)
        (parse_uint-decimal max fuel (n / 10) _ (ground arith) (omega arith)
          ∙ parse_uint-digit max (n / 10) (n % 10) n s (omega arith) fits (omega arith))
]

-- A printed number begins with a digit.
decimal-head : (fuel n : ℕ) → n < fuel → (c : ℕ) × (s : Str) × (decimal fuel n ≡ c ∷ s) × (48 ≤ c)
unfolding decimal
decimal-head zero n h = elim h [ ]
decimal-head (suc fuel) n h = elim (Bool-cases (ltb n 10)) [
  | inl small ↦ (48 + n, [], rw small, omega arith)
  | inr large ↦
      let (c, s, e, digit) = decimal-head fuel (n / 10) (ground arith) in
      (c, s ++ (48 + n % 10) ∷ [], rw (large, e), digit)
]

uint_value-decimal :
    (max fuel n : ℕ) → n < fuel → n ≤ max → uint_value max (decimal fuel n) ≡ some n
unfolding parse_uint
uint_value-decimal max fuel n h fits =
    let (c, s, e, digit) = decimal-head fuel n h in
    rw e (
      ap (λ t. parse_uint max 0 t) (sym_append c s fuel n e)
      ∙ parse_uint-decimal max fuel n [] h fits)
  where
    sym_append :
        (c : ℕ) (s : Str) (fuel n : ℕ) → decimal fuel n ≡ c ∷ s → c ∷ s ≡ decimal fuel n ++ []
    sym_append c s fuel n e = rw (append-nil, e)

-- The integers of a signed type of so many bits.
abbrev pub IsInt : ℕ → ℤ → Type 0
IsInt bits (pos n) = n < 2 ^ (bits - 1)
IsInt bits (negsuc n) = n < 2 ^ (bits - 1)

pow_half : (bits : ℕ) → 0 < bits → 2 ^ bits ≡ 2 * 2 ^ (bits - 1)
pow_half zero h = elim h [ ]
pow_half (suc b) h = let e : suc b - 1 ≡ b = omega arith in rw (e, pow-suc) (mul_comm (2 ^ b) 2)

signed_lem :
    (cutoff : ℕ) (minus : Bool) (n : ℕ)
    → n < cutoff + (if minus then 1 else 0)
    → signed cutoff minus (some n) ≡ (if minus then neg n else pos n)
signed_lem cutoff true n h = ground arith
signed_lem cutoff false n h = ground arith

parse_int-unsigned :
    (bits c : ℕ) (s : Str)
    → 48 ≤ c
    → parse_int (c ∷ s) bits ≡ signed (2 ^ (bits - 1)) false (uint_value (2 ^ bits - 1) (c ∷ s))
unfolding parse_int
parse_int-unsigned bits c s h =
    let minus : (c == 45) ≡ false = ground arith in
    let plus : (c == 43) ≡ false = ground arith in rw (minus, plus)

-- Reading a printed number of the type gives the number.
pub parse_int-format_int :
    (bits : ℕ) (i : ℤ) → 0 < bits → IsInt bits i → parse_int (format_int i) bits ≡ i
unfolding format_int
parse_int-format_int bits (pos n) w h =
    let (c, s, e, digit) = decimal-head (suc n) n (omega arith) in
    let fits : n ≤ 2 ^ bits - 1 = omega (arith, pow_half bits w) in
    let read = uint_value-decimal (2 ^ bits - 1) (suc n) n (omega arith) fits in
    rw e (
      parse_int-unsigned bits c s digit
      ∙ ap (signed (2 ^ (bits - 1)) false) ((rw e at read))
      ∙ signed_lem (2 ^ (bits - 1)) false n (omega arith))
parse_int-format_int bits (negsuc n) w h =
    let fits : suc n ≤ 2 ^ bits - 1 = ground (arith, pow_half bits w) in
    let read = uint_value-decimal (2 ^ bits - 1) (suc (suc n)) (suc n) (omega arith) fits in
    unfold parse_int in rw read (signed_lem (2 ^ (bits - 1)) true (suc n) (omega arith))
