-- ===== src/Base/Monad.antt =====
-- Calls that read and change the world and may return an error or panic. What a call wrote before
-- an error stays written, so the world comes back beside the error.
use mathlib.Core.Path.{◌≡◌, ap, sym, ◌∙◌}
use mathlib.Core.Bool.{Bool, true, false}
use mathlib.Core.List.{List, [], ◌∷◌}
use role_srv.Base.Text.{Str}

-- An error is the text that `err.Error()` gives.
pub data Result {ℓ} (A : Type ℓ) : Type ℓ where
  ok : A → Result A
  err : Str → Result A
  panic : Result A

abbrev pub is_ok {ℓ} : {A : Type ℓ} → Result A → Bool
is_ok (ok a) = true
is_ok _ = false

abbrev pub Exec {ℓ} : Type ℓ → Type ℓ → Type ℓ
Exec W A = W → Result A × W

module _ {ℓ} {W A : Type ℓ} where
  unfoldable pub pure : A → Exec W A
  pure a w = (ok a, w)

  unfoldable pub raise : Str → Exec W A
  raise e w = (err e, w)

  unfoldable pub crash : Exec W A
  crash w = (panic, w)

  unfoldable pub lift : Result A → Exec W A
  lift r w = (r, w)

  unfoldable pub gets : (W → A) → Exec W A
  gets f w = (ok (f w), w)

  -- `_, err := m`, with the error kept as a value.
  abbrev pub attempt_reply : Result A → Exec W (Result A)
  attempt_reply (ok a) w = (ok (ok a), w)
  attempt_reply (err e) w = (ok (err e), w)
  attempt_reply panic w = (panic, w)

  unfoldable pub attempt : Exec W A → Exec W (Result A)
  attempt m w = let (r, w') = m w in attempt_reply r w'

-- `if !test { return errors.New(e) }`
unfoldable pub require : {W : Type 0} → Bool → Str → Exec W (Unit {0})
require true e w = (ok tt, w)
require false e w = (err e, w)

module _ {ℓ} {W A B : Type ℓ} where
  abbrev pub continue : Result A → (A → Exec W B) → Exec W B
  continue (ok a) f w = f a w
  continue (err e) f w = (err e, w)
  continue panic f w = (panic, w)

  infixl 5 ◌>>=◌ ◌>>◌
  -- Opening this opens the calls above too.
  unfoldable pub ◌>>=◌ : Exec W A → (A → Exec W B) → Exec W B
  unfolding pure raise crash lift gets attempt require
  ◌>>=◌ m f w = let (r, w') = m w in continue r f w'

  abbrev pub ◌>>◌ : Exec W A → Exec W B → Exec W B
  m >> n = m >>= λ _. n

-- A loop that returns at the first error.
unfoldable pub for_each {ℓ} : {W A B : Type ℓ} → (A → Exec W B) → List A → Exec W (List B)
for_each f [] = pure []
for_each f (x ∷ xs) = do y ← f x; ys ← for_each f xs; pure (y ∷ ys)

-- The same, over a variable that the body changes.
unfoldable pub fold_each {ℓ} : {W A V : Type ℓ} → (A → V → Exec W V) → List A → V → Exec W V
fold_each f [] v = pure v
fold_each f (x ∷ xs) v = do v' ← f x v; fold_each f xs v'

-- An error or nothing, of a call whose value is dropped.
abbrev pub outcome {ℓ} : {A : Type ℓ} → Result A → Result (Unit {0})
outcome (ok a) = ok tt
outcome (err e) = err e
outcome panic = panic

-- A reading of the value of a successful call, and another value otherwise.
abbrev pub on_ok {ℓ κ} : {A : Type ℓ} {B : Type κ} → Result A → (A → B) → B → B
on_ok (ok a) f x = f a
on_ok (err e) f x = x
on_ok panic f x = x

-- If the call succeeds, then the reading is `x`. An equation, so that `ground` reads it.
abbrev pub WhenOk {ℓ κ} : {A : Type ℓ} {B : Type κ} → Result A → (A → B) → B → Type κ
WhenOk r f x = on_ok r f x ≡ x

pub when-ok {ℓ κ} :
    {A : Type ℓ} {B : Type κ} (r : Result A) (f : A → B) (x : B) {a : A}
    → WhenOk r f x
    → r ≡ ok a
    → f a ≡ x
when-ok (ok b) f x {a} h e = let q : b ≡ a = cc in ap f (sym q) ∙ h
when-ok (err y) f x h e = cc
when-ok panic f x h e = cc
