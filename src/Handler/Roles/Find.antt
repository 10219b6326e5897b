-- ===== src/Handler/Roles/Find.antt =====
-- getRole: what its reply says of the store.
use role_srv.Base.{
  Str, ◌≡◌, ap, ◌∙◌, lookup, Ensures, >>=-Ensures, require-Ensures, Ensures-last, when-ok, Keeps,
}
use role_srv.Redis.{RedisLaws, field, Entry}
use role_srv.Redis.Frames.{Holds, redis_frames}
use role_srv.Services.{Services}
use role_srv.Handler.Keys.{role_key}
use role_srv.Handler.Roles.{find_role}

module _ (S : Services) (L : RedisLaws S.redis) where
  -- The map that getRole returns has the fields that the role's key holds.
  pub find_role-fields :
      (name : Str) (w : S.World)
      → Ensures
          (find_role S name)
          w
          (λ d _. (f : Str) → lookup f d ≡ field (L.view w (role_key S name)) f)
  unfolding find_role
  find_role-fields name w =
      let k = role_key S name in
      >>=-Ensures _ _ λ n e. require-Ensures _ _ _ λ there. Ensures-last _ λ d found f.
        when-ok _ _ _ (L.h_get_all_ok k _ f) found ∙ ap (λ v. field v f) (L.exists_frame k w k)

  pub find_role-Keeps :
      (j : Str) (e : Entry) (name : Str) → Keeps (Holds S.redis L j e) (find_role S name)
  unfolding find_role
  find_role-Keeps j e name = search redis_frames
