-- ===== src/Base/Rules/Keeping.antt =====
-- What every outcome of a call keeps.
use mathlib.Core.Path.{◌≡◌, refl}
use mathlib.Core.Bool.{Bool, true, false}
use mathlib.Core.List.{List, [], ◌∷◌}
use role_srv.Base.Tests.{if◌then◌else◌}
use role_srv.Base.Text.{Str}
use role_srv.Base.Monad.{
  Result, ok, err, panic, Exec, pure, raise, crash, lift, attempt, attempt_reply, gets, continue,
  ◌>>=◌, require, for_each, fold_each,
}

-- `m` keeps `P`, whatever its outcome.
pub record Keeps {ℓ} {W A : Type ℓ} (P : W → Type ℓ) (m : Exec W A) : Type ℓ where
  pub at : (w : W) → P w → P (m w).1

attempt_reply-Keeps {ℓ} :
    {W A : Type ℓ} (P : W → Type ℓ) (r : Result A) (w : W) → P w → P (attempt_reply r w).1
attempt_reply-Keeps P (ok a) w h = h
attempt_reply-Keeps P (err e) w h = h
attempt_reply-Keeps P panic w h = h

module _ {ℓ} {W A : Type ℓ} {P : W → Type ℓ} where
  pub Keeps-pure : (a : A) → Keeps P (pure a)
  unfolding pure
  Keeps-pure a = record { at = λ w h. h }

  pub Keeps-raise : (e : Str) → Keeps P (raise {A = A} e)
  unfolding raise
  Keeps-raise e = record { at = λ w h. h }

  pub Keeps-crash : Keeps P (crash {A = A})
  unfolding crash
  Keeps-crash = record { at = λ w h. h }

  pub Keeps-lift : (r : Result A) → Keeps P (lift r)
  unfolding lift
  Keeps-lift r = record { at = λ w h. h }

  pub Keeps-gets : (f : W → A) → Keeps P (gets f)
  unfolding gets
  Keeps-gets f = record { at = λ w h. h }

  pub Keeps-if : (b : Bool) (m n : Exec W A) → Keeps P m → Keeps P n → Keeps P (if b then m else n)
  Keeps-if true m n km kn = km
  Keeps-if false m n km kn = kn

  pub Keeps-attempt : (m : Exec W A) → Keeps P m → Keeps P (attempt m)
  unfolding attempt
  Keeps-attempt m k = record { at = λ w h. attempt_reply-Keeps P (m w).0 (m w).1 (k.at w h) }

module _ {W : Type 0} {P : W → Type 0} where
  pub Keeps-require : (b : Bool) (e : Str) → Keeps P (require b e)
  unfolding require
  Keeps-require true e = record { at = λ w h. h }
  Keeps-require false e = record { at = λ w h. h }

module _ {ℓ} {W A B : Type ℓ} {P : W → Type ℓ} where
  continue-Keeps :
      (r : Result A) (f : A → Exec W B) (w : W)
      → ((a : A) → Keeps P (f a))
      → P w
      → P (continue r f w).1
  continue-Keeps (ok a) f w k h = (k a).at w h
  continue-Keeps (err e) f w k h = h
  continue-Keeps panic f w k h = h

  pub Keeps-bind :
      (m : Exec W A) (f : A → Exec W B) → Keeps P m → ((a : A) → Keeps P (f a)) → Keeps P (m >>= f)
  unfolding ◌>>=◌
  Keeps-bind m f km kf = record { at = λ w h. continue-Keeps (m w).0 f (m w).1 kf (km.at w h) }

module _ {ℓ} {W A B : Type ℓ} (P : W → Type ℓ) where
  continue-at :
      (r : Result A) (f : A → Exec W B) (w : W)
      → P w
      → ((a : A) → r ≡ ok a → P (f a w).1)
      → P (continue r f w).1
  continue-at (ok a) f w h k = k a refl
  continue-at (err e) f w h k = h
  continue-at panic f w h k = h

  -- What holds behind a block, where it depends on the value of the first call.
  pub >>=-at :
      (m : Exec W A) (f : A → Exec W B) (w : W)
      → P (m w).1
      → ((a : A) → (m w).0 ≡ ok a → P (f a (m w).1).1)
      → P ((m >>= f) w).1
  unfolding ◌>>=◌
  >>=-at m f w h k = continue-at (m w).0 f (m w).1 h k

module _ {W B : Type 0} (P : W → Type 0) where
  -- What holds behind a check, and behind what follows it where the check is passed.
  pub require-at :
      (b : Bool) (e : Str) (f : Unit {0} → Exec W B) (w : W)
      → P w
      → (b ≡ true → P (f tt w).1)
      → P ((require b e >>= f) w).1
  unfolding ◌>>=◌
  require-at true e f w h k = k refl
  require-at false e f w h k = h

module _ {ℓ} {W A B : Type ℓ} {P : W → Type ℓ} where
  pub Keeps-for_each :
      (f : A → Exec W B) (xs : List A) → ((a : A) → Keeps P (f a)) → Keeps P (for_each f xs)
  unfolding for_each
  Keeps-for_each f [] k = Keeps-pure []
  Keeps-for_each f (x ∷ xs) k =
      Keeps-bind (f x) _ (k x)
        (λ y. Keeps-bind (for_each f xs) _ (Keeps-for_each f xs k) (λ ys. Keeps-pure (y ∷ ys)))

  pub Keeps-fold_each :
      (f : A → B → Exec W B) (xs : List A) (v : B)
      → ((a : A) (v : B) → Keeps P (f a v))
      → Keeps P (fold_each f xs v)
  unfolding fold_each
  Keeps-fold_each f [] v k = Keeps-pure v
  Keeps-fold_each f (x ∷ xs) v k = Keeps-bind (f x v) _ (k x v) (λ v'. Keeps-fold_each f xs v' k)

pub ruleset keeps_rules = (
  Keeps-pure, Keeps-raise, Keeps-crash, Keeps-lift, Keeps-gets, Keeps-if, Keeps-attempt,
  Keeps-require, Keeps-bind, Keeps-for_each, Keeps-fold_each,
)
