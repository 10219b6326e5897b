-- ===== src/Base/Text/Split.antt =====
-- The last part of a text behind a separator.
use mathlib.Core.Path.{◌≡◌, refl, ◌∙◌, ap}
use mathlib.Core.Bool.{true, false}
use mathlib.Core.Logic.{inl, inr}
use mathlib.Core.List.{[], ◌∷◌, ◌++◌, append-nil, append_assoc}
use Prim.Native.Nat.{ℕ}
use native.Mathlib.Omega.{arith}
use role_srv.Base.Tests.{◌==◌, Bool-cases}
use role_srv.Base.Text.{Str, split, split_from, last_part}

-- The byte `sep` does not occur.
abbrev pub Lacks : ℕ → Str → Type 0
Lacks sep [] = Unit
Lacks sep (c ∷ s) = ((c == sep) ≡ false) × Lacks sep s

split_from-Lacks :
    (part : Str) (sep : ℕ) (s : Str) → Lacks sep s → split_from part sep s ≡ (part ++ s) ∷ []
unfolding split_from
split_from-Lacks part sep [] h = rw append-nil
split_from-Lacks part sep (c ∷ s) h =
    rw (h.0) (split_from-Lacks (part ++ c ∷ []) sep s h.1 ∙ rw append_assoc)

-- A split is never empty, so that a part in front does not change the last one.
last_part-cons :
    (x part : Str) (sep : ℕ) (s : Str)
    → last_part (x ∷ split_from part sep s) ≡ last_part (split_from part sep s)
unfolding split_from last_part
last_part-cons x part sep [] = refl
last_part-cons x part sep (c ∷ s) = elim (Bool-cases (c == sep)) [
  | inl e ↦ rw e
  | inr e ↦ rw e (last_part-cons x (part ++ c ∷ []) sep s)
]

last_part-one : (s : Str) → last_part (s ∷ []) ≡ s
unfolding last_part
last_part-one s = refl

last_part-split_from :
    (part p : Str) (sep : ℕ) (s : Str)
    → Lacks sep s
    → last_part (split_from part sep (p ++ sep ∷ s)) ≡ s
unfolding split_from
last_part-split_from part [] sep s h =
    let e : (sep == sep) ≡ true = ground arith in
    rw e
      (last_part-cons part [] sep s ∙ ap last_part (split_from-Lacks [] sep s h) ∙ last_part-one s)
last_part-split_from part (c ∷ p) sep s h = elim (Bool-cases (c == sep)) [
  | inl e ↦ rw e (last_part-cons part [] sep (p ++ sep ∷ s) ∙ last_part-split_from [] p sep s h)
  | inr e ↦ rw e (last_part-split_from (part ++ c ∷ []) p sep s h)
]

-- What `strings.Split` has behind the last separator.
pub last_part-split :
    (p : Str) (sep : ℕ) (s : Str) → Lacks sep s → last_part (split (p ++ sep ∷ s) sep) ≡ s
unfolding split
last_part-split p sep s h = last_part-split_from [] p sep s h

pub split-Lacks : (s : Str) (sep : ℕ) → Lacks sep s → split s sep ≡ s ∷ []
unfolding split
split-Lacks s sep h = split_from-Lacks [] sep s h

split_from-two :
    (part s : Str) (sep : ℕ) (t : Str)
    → Lacks sep s
    → Lacks sep t
    → split_from part sep (s ++ sep ∷ t) ≡ (part ++ s) ∷ t ∷ []
unfolding split_from
split_from-two part [] sep t h g =
    let e : (sep == sep) ≡ true = ground arith in
    rw (e, append-nil) (ap (λ l. part ∷ l) (split_from-Lacks [] sep t g))
split_from-two part (c ∷ s) sep t h g =
    rw (h.0) (split_from-two (part ++ c ∷ []) s sep t h.1 g ∙ rw append_assoc)

-- A text of two parts.
pub split-two :
    (s : Str) (sep : ℕ) (t : Str)
    → Lacks sep s
    → Lacks sep t
    → split (s ++ sep ∷ t) sep ≡ s ∷ t ∷ []
unfolding split
split-two s sep t h g = split_from-two [] s sep t h g

Lacks-append : (sep : ℕ) (s t : Str) → Lacks sep s → Lacks sep t → Lacks sep (s ++ t)
Lacks-append sep [] t h g = g
Lacks-append sep (c ∷ s) t h g = (h.0, Lacks-append sep s t h.1 g)

last_part-split_from-Lacks :
    (part : Str) (sep : ℕ) (s : Str)
    → Lacks sep part
    → Lacks sep (last_part (split_from part sep s))
unfolding split_from
last_part-split_from-Lacks part sep [] h = rw last_part-one h
last_part-split_from-Lacks part sep (c ∷ s) h = elim (Bool-cases (c == sep)) [
  | inl e ↦ rw e (rw last_part-cons (last_part-split_from-Lacks [] sep s tt))
  | inr e ↦
      rw e (
        last_part-split_from-Lacks (part ++ c ∷ []) sep s
          (Lacks-append sep part (c ∷ []) h (e, tt)))
]

-- No part has the separator in it.
pub last_part-split-Lacks : (s : Str) (sep : ℕ) → Lacks sep (last_part (split s sep))
unfolding split
last_part-split-Lacks s sep = last_part-split_from-Lacks [] sep s tt
