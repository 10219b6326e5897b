-- ===== src/Handler/Sync/Roles/Discord.antt =====
-- What the service relies on of the Discord gateway when it synchronises roles.
use role_srv.Base.{◌≡◌, Bool, true, not, ◌&&◌, ◌||◌, Str, ◌=?◌, err, WhenOk}
use role_srv.Gateway.{EditRoleRequest}
use role_srv.Services.{Services}
use role_srv.Handler.Sync.Roles.{match_discord_error}
use role_srv.Handler.Sync.Roles.Differences.{named}

-- The gateway finds a role by its name, and Discord has one role of a name at most. A call that
-- replies has done what it is named for; a call about one role leaves the others alone, and the
-- reads of Redis leave Discord alone. The list of the roles may come from a cache: no law says that
-- it lists the roles that Discord has.
pub record DiscordLaws (S : Services) : Type 0 where
  -- Discord has a role of that name.
  pub there : S.World → Str → Bool
  -- GetAllRoles would list a role of that name.
  pub listed : S.World → Str → Bool
  pub get_all_roles_ok :
      (w : S.World) (x : Str) → WhenOk (S.gateway.get_all_roles w).0 (λ rs. named rs x) (listed w x)
  pub create_role_ok :
      (r : Str) (w : S.World) (x : Str)
      → WhenOk
          (S.gateway.create_role r w).0
          (λ _. there (S.gateway.create_role r w).1 x)
          (r =? x || there w x)
  -- An error that says that the role exists is true.
  pub create_role_exists :
      (r e : Str) (w : S.World) (x : Str)
      → (S.gateway.create_role r w).0 ≡ err e
      → match_discord_error e ≡ true
      → there (S.gateway.create_role r w).1 x ≡ (r =? x || there w x)
  pub delete_role_ok :
      (r : Str) (w : S.World) (x : Str)
      → WhenOk
          (S.gateway.delete_role r w).0
          (λ _. there (S.gateway.delete_role r w).1 x)
          (not (r =? x) && there w x)
  pub edit_role_frame :
      (q : EditRoleRequest) (w : S.World) (x : Str)
      → there (S.gateway.edit_role q w).1 x ≡ there w x
  pub get_all_roles_frame :
      (w : S.World) (x : Str) → there (S.gateway.get_all_roles w).1 x ≡ there w x
  pub keys_frame : (p : Str) (w : S.World) (x : Str) → there (S.redis.keys p w).1 x ≡ there w x
  pub h_get_all_frame :
      (k : Str) (w : S.World) (x : Str) → there (S.redis.h_get_all k w).1 x ≡ there w x
  pub keys_listed : (p : Str) (w : S.World) (x : Str) → listed (S.redis.keys p w).1 x ≡ listed w x
  pub h_get_all_listed :
      (k : Str) (w : S.World) (x : Str) → listed (S.redis.h_get_all k w).1 x ≡ listed w x
