-- ===== src/Handler/Setup.antt =====
-- The start of the handler: NewRolesHandler and updateSchema of handler/Roles.go. Errors are logged
-- and dropped, but for the first PING, whose error is a panic.
pub mod Schema
pub mod Filled
use role_srv.Base.{
  [], Str, str, ◌=?◌, ◌==◌, at, Exec, Result, ok, pure, crash, attempt, ◌>>=◌, ◌>>◌, if◌then◌else◌,
  for_each,
}
use role_srv.Services.{Services}
use role_srv.Handler.Keys.{role_key}
use role_srv.Handler.Roles.{role_names}

module _ (S : Services) where
  open S use {World}
  open S.redis use {key_name, ping, exists, set, h_get_all, h_set}

  -- The round of the loop for one role: only a missing Sync is written.
  unfoldable pub default_sync : Str → Exec World (Unit {0})
  default_sync name = do
    info ← h_get_all (role_key S name)
    let write = do attempt (h_set (role_key S name) (str "Sync") (str "1")); pure tt
    if at (str "Sync") info =? [] then write else pure tt

  unfoldable pub update_schema : Exec World (Unit {0})
  update_schema = do attempt (do names ← role_names S; for_each default_sync names); pure tt

  -- The description of an administrators' permission, if there is none yet.
  unfoldable pub ensure_description : Str → Str → Exec World (Unit {0})
  ensure_description key description = do
    attempt do
      n ← exists (key_name key)
      let create = do set (key_name key) description; pure tt
      if n == 0 then create else pure tt
    pure tt

  abbrev pub panic_on_error : Result Str → Exec World (Unit {0})
  panic_on_error (ok r) = pure tt
  panic_on_error _ = crash

  unfoldable pub new_roles_handler : Exec World (Unit {0})
  new_roles_handler = do
    pong ← attempt ping
    panic_on_error pong
    ensure_description (str "description:role_admins") (str "Role Admins")
    ensure_description (str "description:sig_admins") (str "SIG Admins")
    update_schema
