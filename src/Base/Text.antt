-- ===== src/Base/Text.antt =====
-- Go's strings as lists of bytes: literals, equality, and `strings.Split` at one byte.
pub mod Split
use Prim.Native.Nat.{ℕ}
use Prim.Native.Char.{code}
use Prim.Native.String.{String}
use mathlib.Core.Path.{◌≡◌, refl, ap}
use mathlib.Core.Logic.{◌↔◌, ◌⊎◌, inl, inr}
use mathlib.Core.Bool.{Bool, true, false, ◌&&◌}
use mathlib.Core.List.{List, [], ◌∷◌, ◌++◌}
use native.Mathlib.Omega.{arith}
use role_srv.Base.Tests.{◌==◌, if◌then◌else◌, Bool-cases}

abbrev pub Str : Type 0
Str = List ℕ

-- A literal. All literals of the program are ASCII.
unfoldable pub str : String → Str
str String.[] = []
str (String.◌∷◌ c s) = code c ∷ str s

infix 50 ◌=?◌
unfoldable pub ◌=?◌ : Str → Str → Bool
[] =? [] = true
(a ∷ s) =? (b ∷ t) = a == b && s =? t
_ =? _ = false

pub =?-eq : (s t : Str) → (s =? t) ≡ true → s ≡ t
unfolding ◌=?◌
=?-eq [] [] h = refl
=?-eq (a ∷ s) (b ∷ t) h = ground (arith, =?-eq s t)
=?-eq [] (b ∷ t) h = ground arith
=?-eq (a ∷ s) [] h = ground arith

pub =?-refl : (s : Str) → (s =? s) ≡ true
unfolding ◌=?◌
=?-refl [] = refl
=?-refl (a ∷ s) = ground (arith, =?-refl s)

pub =?_iff : (s t : Str) → ((s =? t) ≡ true) ↔ (s ≡ t)
=?_iff s t = (=?-eq s t, λ e. ground (arith, =?-refl s))

-- `len(s) == 0`.
abbrev pub is_empty : Str → Bool
is_empty [] = true
is_empty (c ∷ s) = false

-- `strings.Split(s, sep)` at a separator of one byte: always at least one part. The first
-- argument holds the part that is being read.
split_from : Str → ℕ → Str → List Str
split_from part sep [] = part ∷ []
split_from part sep (c ∷ s) =
    let here = split_from (part ++ c ∷ []) sep s in
    let next = split_from [] sep s in if c == sep then part ∷ next else here

unfoldable pub split : Str → ℕ → List Str
unfolding split_from
split s sep = split_from [] sep s

-- `parts[len(parts)-1]` of a list that is not empty.
unfoldable pub last_part : List Str → Str
last_part [] = []
last_part (s ∷ []) = s
last_part (s ∷ t ∷ parts) = last_part (t ∷ parts)
