-- ===== src/Base/Rules/Returning.antt =====
-- Calls that never panic, and calls that always have the same result.
use mathlib.Core.Path.{◌≡◌, refl, ap, sym, ◌∙◌}
use mathlib.Core.Logic.{◌≢◌}
use mathlib.Core.Bool.{Bool, true, false}
use mathlib.Core.List.{List, [], ◌∷◌}
use role_srv.Base.Tests.{if◌then◌else◌}
use role_srv.Base.Text.{Str}
use role_srv.Base.Monad.{
  Result, ok, err, panic, Exec, pure, raise, attempt, gets, continue, ◌>>=◌, require, for_each,
  fold_each,
}
use role_srv.Base.Rules.Success.{ok-bind, attempt-bind}

-- `m` returns a value or an error.
pub record Returns {ℓ} {W A : Type ℓ} (m : Exec W A) : Type ℓ where
  pub at : (w : W) → (m w).0 ≢ panic

module _ {ℓ} {W A : Type ℓ} where
  pub Returns-pure : (a : A) → Returns {W = W} (pure a)
  unfolding pure
  Returns-pure a = record { at = λ w h. cc }

  pub Returns-raise : (e : Str) → Returns {W = W} (raise {A = A} e)
  unfolding raise
  Returns-raise e = record { at = λ w h. cc }

  pub Returns-gets : (f : W → A) → Returns (gets f)
  unfolding gets
  Returns-gets f = record { at = λ w h. cc }

  pub Returns-if :
      (b : Bool) (m n : Exec W A) → Returns m → Returns n → Returns (if b then m else n)
  Returns-if true m n km kn = km
  Returns-if false m n km kn = kn

pub Returns-require : {W : Type 0} (b : Bool) (e : Str) → Returns {W = W} (require b e)
unfolding require
Returns-require true e = record { at = λ w h. cc }
Returns-require false e = record { at = λ w h. cc }

module _ {ℓ} {W A B : Type ℓ} where
  continue-ne-panic :
      (r : Result A) (f : A → Exec W B) (w : W)
      → r ≢ panic
      → ((a : A) → Returns (f a))
      → (continue r f w).0 ≢ panic
  continue-ne-panic (ok a) f w n k h = (k a).at w h
  continue-ne-panic (err e) f w n k h = cc
  continue-ne-panic panic f w n k h = absurd (n refl)

  pub Returns-bind :
      (m : Exec W A) (f : A → Exec W B) → Returns m → ((a : A) → Returns (f a)) → Returns (m >>= f)
  unfolding ◌>>=◌
  Returns-bind m f km kf = record { at = λ w. continue-ne-panic (m w).0 f (m w).1 (km.at w) kf }

  -- The outcome of a call as a value is no panic.
  pub Returns-attempt :
      (m : Exec W A) (f : Result A → Exec W B)
      → Returns m
      → ((o : Result A) → o ≢ panic → Returns (f o))
      → Returns (attempt m >>= f)
  Returns-attempt m f km kf = record {
    at = λ w h.
        (kf (m w).0 (km.at w)).at (m w).1 (sym (ap (λ p. p.0) (attempt-bind m f w (km.at w))) ∙ h);
  }

module _ {ℓ} {W A B : Type ℓ} where
  pub Returns-for_each :
      (f : A → Exec W B) (xs : List A) → ((a : A) → Returns (f a)) → Returns (for_each f xs)
  unfolding for_each
  Returns-for_each f [] k = Returns-pure []
  Returns-for_each f (x ∷ xs) k =
      Returns-bind (f x) _ (k x) (λ y.
        Returns-bind (for_each f xs) _ (Returns-for_each f xs k) (λ ys. Returns-pure (y ∷ ys)))

  pub Returns-fold_each :
      (f : A → B → Exec W B) (xs : List A) (v : B)
      → ((a : A) (v : B) → Returns (f a v))
      → Returns (fold_each f xs v)
  unfolding fold_each
  Returns-fold_each f [] v k = Returns-pure v
  Returns-fold_each f (x ∷ xs) v k =
      Returns-bind (f x v) _ (k x v) (λ v'. Returns-fold_each f xs v' k)

pub ruleset returns_rules = (
  Returns-pure, Returns-raise, Returns-gets, Returns-if, Returns-require, Returns-bind,
  Returns-for_each, Returns-fold_each,
)

-- `m` has the value `a` in every world.
pub record Yields {ℓ} {W A : Type ℓ} (m : Exec W A) (a : A) : Type ℓ where
  pub at : (w : W) → (m w).0 ≡ ok a

module _ {ℓ} {W A B : Type ℓ} where
  pub Yields-bind :
      (m : Exec W A) (f : A → Exec W B) (a : A) (b : B)
      → Yields m a
      → Yields (f a) b
      → Yields (m >>= f) b
  Yields-bind m f a b km kf = record {
    at = λ w. ap (λ p. p.0) (ok-bind m f w a (km.at w)) ∙ kf.at (m w).1;
  }

  pub Yields-gets :
      (g : W → A) (f : A → Exec W B) (b : B) → ((a : A) → Yields (f a) b) → Yields (gets g >>= f) b
  unfolding ◌>>=◌
  Yields-gets g f b k = record { at = λ w. (k (g w)).at w }

  -- Behind a call whose outcome is a value, by the outcome in each world.
  pub Yields-attempt :
      (m : Exec W A) (f : Result A → Exec W B) (b : B)
      → Returns m
      → ((w : W) → Yields (f (m w).0) b)
      → Yields (attempt m >>= f) b
  Yields-attempt m f b km k = record {
    at = λ w. ap (λ p. p.0) (attempt-bind m f w (km.at w)) ∙ (k w).at (m w).1;
  }
