-- ===== src/Tests/Memory/Dicts.antt =====
-- The dictionaries and lists of the Redis in memory: what each operation on them makes.
use role_srv.Base.{
  ◌≡◌, refl, ap, not, ◌&&◌, none, List, [], ◌∷◌, ◌++◌, Str, str, ◌=?◌, =?_iff, Dict, lookup,
  contains, lookup-insert, if◌then◌else◌, arith, ◌∙◌,
}
use role_srv.Redis.{starts_with, or_else}
use role_srv.Tests.Memory.Store.{Value, erase, without, common, overlay, drop_last, matching}

pub lookup-erase :
    (k j : Str) (d : Dict Value) → lookup j (erase k d) ≡ (if k =? j then none else lookup j d)
unfolding lookup erase
lookup-erase k j [] = ground arith
lookup-erase k j ((i, v) ∷ d) =
    ground (arith, =?_iff k j, =?_iff i k, =?_iff i j, lookup-erase k j d)

pub contains-without :
    (x y : Str) (l : List Str) → contains (without x l) y ≡ (not (x =? y) && contains l y)
unfolding contains without
contains-without x y [] = ground arith
contains-without x y (z ∷ l) =
    ground (arith, =?_iff x y, =?_iff x z, =?_iff z y, contains-without x y l)

pub contains-common :
    (xs ys : List Str) (y : Str) → contains (common xs ys) y ≡ (contains xs y && contains ys y)
unfolding contains common
contains-common [] ys y = refl
contains-common (x ∷ xs) ys y = ground (arith, =?_iff x y, contains-common xs ys y)

pub lookup-overlay :
    (d base : Dict Str) (g : Str) → lookup g (overlay d base) ≡ or_else (lookup g d) (lookup g base)
unfolding lookup overlay
lookup-overlay [] base g = refl
lookup-overlay ((f, v) ∷ d) base g =
    lookup-insert f g v (overlay d base) ∙ ground (arith, lookup-overlay d base g)

pub drop_last-star : (p : Str) → drop_last (p ++ str "*") ≡ p
unfolding drop_last str
drop_last-star [] = refl
drop_last-star (c ∷ []) = refl
drop_last-star (c ∷ d ∷ p) = ap (λ s. c ∷ s) (drop_last-star (d ∷ p))

pub contains-matching :
    (p k : Str) (ks : List Str) → contains (matching p ks) k ≡ (starts_with p k && contains ks k)
unfolding contains matching
contains-matching p k [] = ground arith
contains-matching p k (j ∷ ks) = ground (arith, =?_iff j k, contains-matching p k ks)
