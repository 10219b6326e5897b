-- ===== src/Strconv.antt =====
-- The functions of Go's `strconv` that the service calls. Every call drops the error, so each
-- function here is the value that comes back beside it.
pub mod RoundTrip
pub mod Hex
use role_srv.Base.{
  ℕ, zero, suc, ◌+◌, ◌-◌, ◌*◌, ◌/◌, ◌%◌, ◌^◌, Bool, true, false, ◌&&◌, ◌||◌, List, [], ◌∷◌, ◌++◌,
  Option, none, some, Str, str, ltb, leb, ◌==◌, if◌then◌else◌, ℤ, pos, negsuc, neg, contains,
}

abbrev pub is_digit : ℕ → Bool
is_digit c = leb 48 c && leb c 57

-- ParseUint in base 10: `none` is a syntax error; out of range gives the largest value at once.
unfoldable pub parse_uint : ℕ → ℕ → Str → Option ℕ
parse_uint max n [] = some n
parse_uint max n (c ∷ s) =
    let next = n * 10 + (c - 48) in
    let rest = parse_uint max next s in
    if is_digit c then (if ltb max next then some max else rest) else none

abbrev pub signed : ℕ → Bool → Option ℕ → ℤ
signed cutoff minus none = pos 0
signed cutoff true (some n) = if ltb cutoff n then neg cutoff else neg n
signed cutoff false (some n) = if leb cutoff n then pos (cutoff - 1) else pos n

abbrev pub uint_value : ℕ → Str → Option ℕ
uint_value max [] = none
uint_value max (c ∷ s) = parse_uint max 0 (c ∷ s)

-- ParseInt(s, 10, bits)
unfoldable pub parse_int : Str → ℕ → ℤ
parse_int [] bits = pos 0
parse_int (c ∷ s) bits =
    if c == b'-'
    then signed (2 ^ (bits - 1)) true (uint_value (2 ^ bits - 1) s)
    else if c == b'+'
    then signed (2 ^ (bits - 1)) false (uint_value (2 ^ bits - 1) s)
    else signed (2 ^ (bits - 1)) false (uint_value (2 ^ bits - 1) (c ∷ s))

-- The value of a digit in base 16.
abbrev pub hex_digit : ℕ → Option ℕ
hex_digit c =
    if is_digit c
    then some (c - 48)
    else if leb b'a' c && leb c b'f'
    then some (c - 87)
    else if leb b'A' c && leb c b'F'
    then some (c - 55)
    else none

-- ParseUint in base 16, 64 bits.
unfoldable pub parse_hex : ℕ → Str → Option ℕ
parse_hex n [] = some n
parse_hex n (c ∷ s) = elim (hex_digit c) [
  | none ↦ none
  | some d ↦
      let rest = parse_hex (n * 16 + d) s in
      if ltb (2 ^ 64 - 1) (n * 16 + d) then some (2 ^ 64 - 1) else rest
]

abbrev pub hex_value : Str → Option ℕ
hex_value [] = none
hex_value (c ∷ s) = parse_hex 0 (c ∷ s)

-- ParseInt(s, 16, 64)
unfoldable pub parse_int16 : Str → ℤ
parse_int16 [] = pos 0
parse_int16 (c ∷ s) =
    if c == b'-'
    then signed (2 ^ 63) true (hex_value s)
    else if c == b'+'
    then signed (2 ^ 63) false (hex_value s)
    else signed (2 ^ 63) false (hex_value (c ∷ s))

-- ParseBool
unfoldable pub parse_bool : Str → Bool
unfolding str contains
parse_bool s = contains (str "1" ∷ str "t" ∷ str "T" ∷ str "TRUE" ∷ str "true" ∷ str "True" ∷ []) s

decimal : ℕ → ℕ → Str
decimal zero n = []
decimal (suc fuel) n =
    let front = decimal fuel (n / 10) in
    if ltb n 10 then (48 + n) ∷ [] else front ++ ((48 + n % 10) ∷ [])

-- FormatInt(i, 10), also `%d` of fmt. A number has no more digits than its value.
unfoldable pub format_int : ℤ → Str
unfolding decimal
format_int (pos n) = decimal (suc n) n
format_int (negsuc n) = b'-' ∷ decimal (suc (suc n)) (suc n)

-- `%t` of fmt.
unfoldable pub format_bool : Bool → Str
format_bool true = str "true"
format_bool false = str "false"
