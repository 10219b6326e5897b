-- ===== src/Base/Rules/Success.antt =====
-- What holds after a call that succeeded.
use mathlib.Core.Path.{◌≡◌, refl, subst, ap}
use mathlib.Core.Logic.{◌≢◌}
use mathlib.Core.Bool.{Bool, true, false}
use native.Mathlib.Omega.{arith}
use role_srv.Base.Text.{Str}
use role_srv.Base.Monad.{
  Result, outcome, is_ok, WhenOk, ok, err, panic, Exec, pure, attempt, attempt_reply, continue,
  ◌>>=◌, ◌>>◌, require,
}

attempt_reply-world {ℓ} : {W A : Type ℓ} (r : Result A) (w : W) → (attempt_reply r w).1 ≡ w
attempt_reply-world (ok a) w = refl
attempt_reply-world (err e) w = refl
attempt_reply-world panic w = refl

pub when-is_ok {ℓ κ} :
    {A : Type ℓ} {B : Type κ} (r : Result A) (x y : B)
    → is_ok r ≡ true
    → WhenOk r (λ _. x) y
    → x ≡ y
when-is_ok (ok a) x y e h = h
when-is_ok (err s) x y e h = cc
when-is_ok panic x y e h = cc

-- If `m` succeeds at `w`, then `Q` holds of its value and of the world that it leaves.
pub record Ensures {ℓ} {W A : Type ℓ} (m : Exec W A) (w : W) (Q : A → W → Type ℓ) : Type ℓ where
  pub holds : (a : A) → (m w).0 ≡ ok a → Q a (m w).1

module _ {ℓ} {W A : Type ℓ} {w : W} {Q : A → W → Type ℓ} where
  pub Ensures-pure : (a : A) → Q a w → Ensures (pure a) w Q
  unfolding pure
  Ensures-pure a q = record { holds = λ b e. subst (λ x. Q x w) (cc) q }

  -- A call that ends a block.
  pub Ensures-last : (m : Exec W A) → ((a : A) → (m w).0 ≡ ok a → Q a (m w).1) → Ensures m w Q
  Ensures-last m h = record { holds = h }

module _ {ℓ} {W A B : Type ℓ} where
  continue-Ensures :
      (r : Result A) (f : A → Exec W B) (w : W) (Q : B → W → Type ℓ)
      → ((a : A) → r ≡ ok a → Ensures (f a) w Q)
      → (b : B) → (continue r f w).0 ≡ ok b
      → Q b (continue r f w).1
  continue-Ensures (ok a) f w Q h b e = (h a refl).holds b e
  continue-Ensures (err x) f w Q h b e = cc
  continue-Ensures panic f w Q h b e = cc

  -- The rest of a block may use that the first call succeeded.
  pub >>=-Ensures :
      {w : W} {Q : B → W → Type ℓ} (m : Exec W A) (f : A → Exec W B)
      → ((a : A) → (m w).0 ≡ ok a → Ensures (f a) (m w).1 Q)
      → Ensures (m >>= f) w Q
  unfolding ◌>>=◌
  >>=-Ensures {w} {Q} m f h = record { holds = continue-Ensures (m w).0 f (m w).1 Q h }

module _ {ℓ} {W A B : Type ℓ} {Q : B → W → Type ℓ} where
  attempt_reply-Ensures :
      (r : Result A) (f : Result A → Exec W B) (w : W)
      → Ensures (f r) w Q
      → (b : B) → (continue (attempt_reply r w).0 f (attempt_reply r w).1).0 ≡ ok b
      → Q b (continue (attempt_reply r w).0 f (attempt_reply r w).1).1
  attempt_reply-Ensures (ok a) f w h b e = h.holds b e
  attempt_reply-Ensures (err x) f w h b e = h.holds b e
  attempt_reply-Ensures panic f w h b e = cc

  -- The rest of a block goes on with the result, an error included.
  pub attempt-Ensures :
      (m : Exec W A) (f : Result A → Exec W B) (w : W)
      → Ensures (f (m w).0) (m w).1 Q
      → Ensures (attempt m >>= f) w Q
  unfolding ◌>>=◌
  attempt-Ensures m f w h = record { holds = attempt_reply-Ensures (m w).0 f (m w).1 h }

module _ {W B : Type 0} {w : W} {Q : B → W → Type 0} where
  pub require-Ensures :
      (b : Bool) (e : Str) (f : Unit {0} → Exec W B)
      → (b ≡ true → Ensures (f tt) w Q)
      → Ensures (require b e >>= f) w Q
  unfolding ◌>>=◌
  require-Ensures true e f h = record { holds = (h refl).holds }
  require-Ensures false e f h = record { holds = λ b p. cc }

module _ {W : Type 0} {w : W} {Q : Unit {0} → W → Type 0} where
  -- A check that ends a block.
  pub require-last : (b : Bool) (e : Str) → (b ≡ true → Q tt w) → Ensures (require b e) w Q
  unfolding require
  require-last true e h = record { holds = λ a p. h refl }
  require-last false e h = record { holds = λ a p. cc }

-- If `m` succeeds at `w`, then `Q` holds; if not, then `F` holds of the world that it leaves.
pub record Leaves {ℓ} {W A : Type ℓ} (m : Exec W A) (w : W) (Q : A → W → Type ℓ) (F : W → Type ℓ)
    : Type ℓ where
  pub success : (a : A) → (m w).0 ≡ ok a → Q a (m w).1
  pub failure : is_ok (m w).0 ≡ false → F (m w).1

module _ {ℓ} {W A : Type ℓ} {w : W} {Q : A → W → Type ℓ} {F : W → Type ℓ} where
  pub Leaves-pure : (a : A) → Q a w → Leaves (pure a) w Q F
  unfolding pure
  Leaves-pure a q = record { success = λ b e. subst (λ x. Q x w) (cc) q; failure = λ e. cc }

  pub Leaves-last :
      (m : Exec W A) → ((a : A) → (m w).0 ≡ ok a → Q a (m w).1) → F (m w).1 → Leaves m w Q F
  Leaves-last m h f = record { success = h; failure = λ _. f }

module _ {ℓ} {W A B : Type ℓ} where
  continue-Leaves :
      (r : Result A) (f : A → Exec W B) (w : W) (Q : B → W → Type ℓ) (F : W → Type ℓ)
      → ((a : A) → r ≡ ok a → Leaves (f a) w Q F)
      → F w
      → Leaves (continue r f) w Q F
  continue-Leaves (ok a) f w Q F h g = record {
    success = (h a refl).success;
    failure = (h a refl).failure;
  }
  continue-Leaves (err x) f w Q F h g = record { success = λ b e. cc; failure = λ _. g }
  continue-Leaves panic f w Q F h g = record { success = λ b e. cc; failure = λ _. g }

  pub >>=-Leaves :
      {w : W} {Q : B → W → Type ℓ} {F : W → Type ℓ} (m : Exec W A) (f : A → Exec W B)
      → ((a : A) → (m w).0 ≡ ok a → Leaves (f a) (m w).1 Q F)
      → F (m w).1
      → Leaves (m >>= f) w Q F
  unfolding ◌>>=◌
  >>=-Leaves {w} {Q} {F} m f h g =
      let c = continue-Leaves (m w).0 f (m w).1 Q F h g in
      record { success = c.success; failure = c.failure }

module _ {W B : Type 0} {w : W} {Q : B → W → Type 0} {F : W → Type 0} where
  pub require-Leaves :
      (b : Bool) (e : Str) (f : Unit {0} → Exec W B)
      → (b ≡ true → Leaves (f tt) w Q F)
      → F w
      → Leaves (require b e >>= f) w Q F
  unfolding ◌>>=◌
  require-Leaves true e f h g = record { success = (h refl).success; failure = (h refl).failure }
  require-Leaves false e f h g = record { success = λ b p. cc; failure = λ _. g }

pub attempt-world {ℓ} : {W A : Type ℓ} (m : Exec W A) (w : W) → (attempt m w).1 ≡ (m w).1
unfolding attempt
attempt-world m w = attempt_reply-world (m w).0 (m w).1

dropped_reply {ℓ} :
    {W A : Type ℓ} (r : Result A) (w : W)
    → (continue (attempt_reply r w).0 (λ _. pure (tt {ℓ})) (attempt_reply r w).1).1 ≡ w
unfolding pure
dropped_reply (ok a) w = refl
dropped_reply (err e) w = refl
dropped_reply panic w = refl

-- A call whose result is dropped.
pub dropped-world {ℓ} :
    {W A : Type ℓ} (m : Exec W A) (w : W) → ((attempt m >> pure (tt {ℓ})) w).1 ≡ (m w).1
unfolding ◌>>=◌ attempt
dropped-world m w = dropped_reply (m w).0 (m w).1

outcome_reply {ℓ} :
    {W A B : Type ℓ} (r : Result A) (w : W) (f : Result A → Exec W B)
    → r ≢ panic
    → continue (attempt_reply r w).0 f (attempt_reply r w).1 ≡ f r w
outcome_reply (ok a) w f n = refl
outcome_reply (err e) w f n = refl
outcome_reply panic w f n = absurd (n refl)

-- A block goes on behind an attempt that did not panic.
pub attempt-bind {ℓ} :
    {W A B : Type ℓ} (m : Exec W A) (f : Result A → Exec W B) (w : W)
    → (m w).0 ≢ panic
    → (attempt m >>= f) w ≡ f (m w).0 (m w).1
unfolding ◌>>=◌
attempt-bind m f w n = outcome_reply (m w).0 (m w).1 f n

continue_ok {ℓ} :
    {W A B : Type ℓ} (r : Result A) (w : W) (f : A → Exec W B) (a : A)
    → r ≡ ok a
    → continue r f w ≡ f a w
continue_ok (ok b) w f a e = ap (λ x. f x w) (cc)
continue_ok (err x) w f a e = cc
continue_ok panic w f a e = cc

-- A block goes on behind a call that succeeded.
pub ok-bind {ℓ} :
    {W A B : Type ℓ} (m : Exec W A) (f : A → Exec W B) (w : W) (a : A)
    → (m w).0 ≡ ok a
    → (m >>= f) w ≡ f a (m w).1
unfolding ◌>>=◌
ok-bind m f w a e = continue_ok (m w).0 (m w).1 f a e

pub require-bind :
    {W B : Type 0} (b : Bool) (e : Str) (f : Unit {0} → Exec W B) (w : W)
    → b ≡ true
    → (require b e >>= f) w ≡ f tt w
unfolding ◌>>=◌
require-bind true e f w h = refl
require-bind false e f w h = cc

pub is_ok-ne-panic {ℓ} : {A : Type ℓ} (r : Result A) → is_ok r ≡ true → r ≢ panic
is_ok-ne-panic r h e = ground (arith, ap is_ok e)

pub is_ok-outcome {ℓ} : {A : Type ℓ} (r : Result A) → is_ok r ≡ true → outcome r ≡ ok tt
is_ok-outcome (ok a) h = refl
is_ok-outcome (err e) h = cc
is_ok-outcome panic h = cc
