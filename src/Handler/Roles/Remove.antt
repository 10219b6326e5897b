-- ===== src/Handler/Roles/Remove.antt =====
-- RemoveRole.
use role_srv.Base.{
  Str, ◌≡◌, ◌≢◌, arith, refl, true, ok, Ensures, >>=-Ensures, require-Ensures, Ensures-pure, Keeps,
  when-ok,
}
use role_srv.Proto.{Role}
use role_srv.Redis.{RedisLaws, present, absent, Entry}
use role_srv.Redis.Frames.{Holds, redis_frames}
use role_srv.Services.{Services}
use role_srv.Handler.Keys.{role_key}
use role_srv.Handler.Roles.{remove_role}

module _ (S : Services) (L : RedisLaws S.redis) where
  open S.redis use {exists, del}

  -- The role was there before and is not there afterwards.
  pub record Removed (r : Role) (w w' : S.World) : Type 0 where
    pub was_there : present (L.view w (role_key S r.short_name)) ≡ true
    pub gone : L.view w' (role_key S r.short_name) ≡ absent

  remove_role-Removed :
      (r : Role) (w : S.World) → Ensures (remove_role S r) w (λ _ w'. Removed r w w')
  unfolding remove_role
  remove_role-Removed r w =
      let k = role_key S r.short_name in
      >>=-Ensures _ _ λ n e. require-Ensures _ _ _ λ there. >>=-Ensures _ _ λ d gone.
        Ensures-pure _ (record {
          was_there = ground (arith, when-ok _ _ _ (L.exists_ok k w) e);
          gone = when-ok _ _ _ (L.del_ok k _) gone;
        })

  remove_role-Keeps :
      (j : Str) (e : Entry) (r : Role)
      → j ≢ role_key S r.short_name
      → Keeps (Holds S.redis L j e) (remove_role S r)
  unfolding remove_role
  remove_role-Keeps j e r n = search redis_frames

  -- A RemoveRole that succeeds removes a role that was there.
  pub remove_role-removes :
      (r : Role) (w : S.World) → (remove_role S r w).0 ≡ ok tt → Removed r w (remove_role S r w).1
  remove_role-removes r w h = (remove_role-Removed r w).holds tt h

  -- Whatever RemoveRole replies, it changes no key but that of the role.
  pub remove_role-frame :
      (r : Role) (w : S.World) (j : Str)
      → j ≢ role_key S r.short_name
      → L.view (remove_role S r w).1 j ≡ L.view w j
  remove_role-frame r w j n =
      ((remove_role-Keeps j (L.view w j) r n).at w (record { at = refl })).at
