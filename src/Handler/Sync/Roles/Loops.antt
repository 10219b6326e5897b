-- ===== src/Handler/Sync/Roles/Loops.antt =====
-- What the three loops of syncRoles do to the roles of Discord.
use role_srv.Base.{
  ◌≡◌, ◌∙◌, refl, arith, true, not, ◌&&◌, ◌||◌, List, [], ◌∷◌, Str, ◌=?◌, contains, Result, ok, err,
  panic, raise, crash, for_each, Ensures, >>=-Ensures, attempt-Ensures, Ensures-pure, when-ok,
  Bool-cases, inl, inr,
}
use role_srv.Services.{Services}
use role_srv.Handler.Sync.Report.Success.{reporting-last}
use role_srv.Handler.Sync.Roles.{create_role, created, delete_role, edit_role, match_discord_error}
use role_srv.Handler.Sync.Roles.Discord.{DiscordLaws}

module _ (S : Services) (D : DiscordLaws S) where
  created_of :
      (channel r : Str) (o : Result (Unit {0})) (w : S.World) (Q : S.World → Type 0)
      → ((a : Unit {0}) → o ≡ ok a → Q w)
      → ((e : Str) → o ≡ err e → match_discord_error e ≡ true → Q w)
      → Ensures (created S channel r o) w (λ _. Q)
  unfolding raise crash
  created_of channel r (ok a) w Q h k = Ensures-pure _ (h a refl)
  created_of channel r (err e) w Q h k = elim (Bool-cases (match_discord_error e)) [
    | inl m ↦ rw m (Ensures-pure _ (k e refl m))
    | inr m ↦ rw m (>>=-Ensures _ _ λ _ _. record { holds = λ a p. cc })
  ]
  created_of channel r panic w Q h k = record { holds = λ a p. cc }

  create_role-Ensures :
      (channel r : Str) (w : S.World)
      → Ensures
          (create_role S channel r)
          w
          (λ _ w'. (x : Str) → D.there w' x ≡ (r =? x || D.there w x))
  unfolding create_role
  create_role-Ensures channel r w = attempt-Ensures _ _ w (
      created_of channel r _ _ _ (λ a e x. when-ok _ _ _ (D.create_role_ok r w x) e)
        (λ t e m x. D.create_role_exists r t w x e m))

  delete_role-Ensures :
      (channel r : Str) (w : S.World)
      → Ensures
          (delete_role S channel r)
          w
          (λ _ w'. (x : Str) → D.there w' x ≡ (not (r =? x) && D.there w x))
  unfolding delete_role
  delete_role-Ensures channel r w =
      reporting-last S channel _ _ w λ _ e x. when-ok _ _ _ (D.delete_role_ok r w x) e

  edit_role-Ensures :
      (channel r : Str) (infos : _) (w : S.World)
      → Ensures (edit_role S channel infos r) w (λ _ w'. (x : Str) → D.there w' x ≡ D.there w x)
  unfolding edit_role
  edit_role-Ensures channel r infos w =
      reporting-last S channel _ _ w λ _ e x. D.edit_role_frame _ w x

  pub create_roles :
      (channel : Str) (rs : List Str) (w : S.World)
      → Ensures
          (for_each (create_role S channel) rs)
          w
          (λ _ w'. (x : Str) → D.there w' x ≡ (contains rs x || D.there w x))
  unfolding for_each contains
  create_roles channel [] w = Ensures-pure _ (λ x. refl)
  create_roles channel (r ∷ rs) w = >>=-Ensures _ _ λ a e. >>=-Ensures _ _ λ b f.
      Ensures-pure _ (λ x. ground (
        arith,
        (create_role-Ensures channel r w).holds a e x,
        (create_roles channel rs _).holds b f x,
      ))

  pub delete_roles :
      (channel : Str) (rs : List Str) (w : S.World)
      → Ensures
          (for_each (delete_role S channel) rs)
          w
          (λ _ w'. (x : Str) → D.there w' x ≡ (not (contains rs x) && D.there w x))
  unfolding for_each contains
  delete_roles channel [] w = Ensures-pure _ (λ x. refl)
  delete_roles channel (r ∷ rs) w = >>=-Ensures _ _ λ a e. >>=-Ensures _ _ λ b f.
      Ensures-pure _ (λ x. ground (
        arith,
        (delete_role-Ensures channel r w).holds a e x,
        (delete_roles channel rs _).holds b f x,
      ))

  pub edit_roles :
      (channel : Str) (infos : _) (rs : List Str) (w : S.World)
      → Ensures
          (for_each (edit_role S channel infos) rs)
          w
          (λ _ w'. (x : Str) → D.there w' x ≡ D.there w x)
  unfolding for_each
  edit_roles channel infos [] w = Ensures-pure _ (λ x. refl)
  edit_roles channel infos (r ∷ rs) w = >>=-Ensures _ _ λ a e. >>=-Ensures _ _ λ b f.
      Ensures-pure _ (λ x.
        (edit_roles channel infos rs _).holds b f x
        ∙ (edit_role-Ensures channel r infos w).holds a e x)
