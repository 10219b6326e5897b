-- ===== src/Base/Lists.antt =====
-- Lists of strings, and maps from strings as association lists.
use Prim.Native.Nat.{ℕ, suc, ◌+◌}
use mathlib.Core.Path.{◌≡◌, refl}
use mathlib.Core.Bool.{Bool, true, false, ◌||◌}
use mathlib.Core.Option.{Option, none, some}
use mathlib.Core.List.{List, [], ◌∷◌, ◌++◌}
use native.Mathlib.Omega.{arith}
use role_srv.Base.Tests.{if◌then◌else◌}
use role_srv.Base.Text.{Str, ◌=?◌, =?_iff}

unfoldable pub contains : List Str → Str → Bool
contains [] a = false
contains (x ∷ xs) a = x =? a || contains xs a

pub contains-append :
    (xs ys : List Str) (a : Str) → contains (xs ++ ys) a ≡ (contains xs a || contains ys a)
unfolding contains
contains-append [] ys a = refl
contains-append (x ∷ xs) ys a = ground (arith, contains-append xs ys a)

abbrev pub is_some {ℓ} : {A : Type ℓ} → Option A → Bool
is_some none = false
is_some (some a) = true

abbrev pub Dict {ℓ} : Type ℓ → Type ℓ
Dict V = List (Str × V)

module _ {ℓ} {V : Type ℓ} where
  unfoldable pub lookup : Str → Dict V → Option V
  lookup k [] = none
  lookup k ((j, v) ∷ d) = if j =? k then some v else lookup k d

  unfoldable pub insert : Str → V → Dict V → Dict V
  insert k v [] = (k, v) ∷ []
  insert k v ((j, w) ∷ d) = if j =? k then (k, v) ∷ d else (j, w) ∷ insert k v d

  unfoldable pub keys : Dict V → List Str
  keys [] = []
  keys ((k, v) ∷ d) = k ∷ keys d

-- Go's `m[k]` on a `map[string]string`: a missing key reads as the empty string.
abbrev pub or_empty : Option Str → Str
or_empty none = []
or_empty (some s) = s

unfoldable pub at : Str → Dict Str → Str
at k d = or_empty (lookup k d)

abbrev pub length {ℓ} : {A : Type ℓ} → List A → ℕ
length [] = 0
length (x ∷ xs) = suc (length xs)

pub length-append {ℓ} : {A : Type ℓ} (xs ys : List A) → length (xs ++ ys) ≡ length xs + length ys
length-append [] ys = omega arith
length-append (x ∷ xs) ys = omega (arith, length-append xs ys)

module _ {ℓ} {V : Type ℓ} where
  pub lookup-insert :
      (k j : Str) (v : V) (d : Dict V)
      → lookup j (insert k v d) ≡ (if k =? j then some v else lookup j d)
  unfolding lookup insert
  lookup-insert k j v [] = refl
  lookup-insert k j v ((i, w) ∷ d) =
      ground (arith, =?_iff k j, =?_iff i k, =?_iff i j, lookup-insert k j v d)

  pub contains-keys : (d : Dict V) (k : Str) → contains (keys d) k ≡ is_some (lookup k d)
  unfolding lookup keys contains
  contains-keys [] k = refl
  contains-keys ((j, v) ∷ d) k = ground (arith, contains-keys d k)
