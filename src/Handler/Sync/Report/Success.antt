-- ===== src/Handler/Sync/Report/Success.antt =====
-- A call whose error is reported and ends the synchronisation: what holds behind it.
use role_srv.Base.{
  ◌≡◌, refl, sym, subst, Str, Exec, Result, ok, err, panic, raise, crash, ◌>>=◌, Ensures,
  >>=-Ensures, attempt-Ensures, Ensures-pure,
}
use role_srv.Services.{Services}
use role_srv.Handler.Sync.Report.{reporting, reported}

module _ {A : Type 0} (S : Services) (channel place : Str) where
  reported-Ensures :
      (r : Result A) (w : S.World)
      → Ensures (reported S channel place r) w (λ a w'. (r ≡ ok a) × (w' ≡ w))
  unfolding raise crash
  reported-Ensures (ok a) w = Ensures-pure a (refl, refl)
  reported-Ensures (err e) w = >>=-Ensures _ _ λ _ _. record { holds = λ a p. cc }
  reported-Ensures panic w = record { holds = λ a p. cc }

  reporting-Ensures :
      (m : Exec S.World A) (w : S.World)
      → Ensures (reporting S channel place m) w (λ a w'. ((m w).0 ≡ ok a) × (w' ≡ (m w).1))
  unfolding reporting
  reporting-Ensures m w = attempt-Ensures m _ w (reported-Ensures (m w).0 (m w).1)

  -- The rest of a block may use that the call succeeded.
  pub reporting-bind :
      {B : Type 0} {Q : B → S.World → Type 0} (m : Exec S.World A) (f : A → Exec S.World B)
      (w : S.World)
      → ((a : A) → (m w).0 ≡ ok a → Ensures (f a) (m w).1 Q)
      → Ensures (reporting S channel place m >>= f) w Q
  reporting-bind {Q} m f w h = >>=-Ensures _ _ λ a e.
      let (p, q) = (reporting-Ensures m w).holds a e in
      subst (λ v. Ensures (f a) v Q) (sym q) (h a p)

  -- The same, at the end of a block.
  pub reporting-last :
      {Q : A → S.World → Type 0} (m : Exec S.World A) (w : S.World)
      → ((a : A) → (m w).0 ≡ ok a → Q a (m w).1)
      → Ensures (reporting S channel place m) w Q
  reporting-last {Q} m w h = record {
    holds =
        λ a e. let (p, q) = (reporting-Ensures m w).holds a e in subst (λ v. Q a v) (sym q) (h a p);
  }
