-- ===== src/Handler/Filters/One.antt =====
-- AddMembers and RemoveMembers of one user.
use role_srv.Base.{
  Str, [], ◌∷◌, ◌=?◌, ◌≡◌, refl, ◌∙◌, lift, ap, true, not, ◌&&◌, ◌||◌, ok, err, panic, Result,
  is_ok, outcome, when-is_ok, Ensures, >>=-Ensures, require-Ensures, attempt-Ensures,
}
use role_srv.Redis.{RedisLaws, has}
use role_srv.Services.{Services}
use role_srv.Handler.Keys.{members_key}
use role_srv.Handler.Filters.{add_members, remove_members, add_each, remove_each}

ok_of_outcome : {A : Type 0} (r : Result A) → outcome r ≡ ok tt → is_ok r ≡ true
ok_of_outcome (ok a) h = refl
ok_of_outcome (err e) h = cc
ok_of_outcome panic h = cc

module _ (S : Services) (L : RedisLaws S.redis) (x filter y : Str) (w : S.World) where
  -- An AddMembers of one user that succeeds adds the user and nobody else.
  pub add_members-Ensures_one :
      Ensures (add_members S (record { name = x ∷ []; filter = filter })) w (λ _ v.
        has (L.view v (members_key S filter)) y
        ≡ (x =? y || has (L.view w (members_key S filter)) y))
  unfolding add_members add_each lift
  add_members-Ensures_one = >>=-Ensures _ _ λ n e. require-Ensures _ _ _ λ there.
      attempt-Ensures _ _ _ (record {
        holds = λ _ h.
            when-is_ok _ _ _ (ok_of_outcome _ h) (L.s_add_ok (members_key S filter) x _ y)
            ∙ ap (λ v. x =? y || has v y) (L.exists_frame _ w (members_key S filter));
      })

  -- A RemoveMembers of one user that succeeds removes the user and nobody else.
  pub remove_members-Ensures_one :
      Ensures (remove_members S (record { name = x ∷ []; filter = filter })) w (λ _ v.
        has (L.view v (members_key S filter)) y
        ≡ (not (x =? y) && has (L.view w (members_key S filter)) y))
  unfolding remove_members remove_each lift
  remove_members-Ensures_one = >>=-Ensures _ _ λ n e. require-Ensures _ _ _ λ there.
      attempt-Ensures _ _ _ (record {
        holds = λ _ h.
            when-is_ok _ _ _ (ok_of_outcome _ h) (L.s_rem_ok (members_key S filter) x _ y)
            ∙ ap (λ v. not (x =? y) && has v y) (L.exists_frame _ w (members_key S filter));
      })
