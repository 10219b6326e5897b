-- ===== src/Handler/Roles.antt =====
-- The role handlers of handler/Roles.go.

pub mod Find
pub mod Remove
pub mod RoundTrip
pub mod Update
pub mod Names
pub mod Add
pub mod Book
pub mod Summary
use role_srv.Base.{
  not, ◌&&◌, List, ◌++◌, Str, str, ◌=?◌, ◌==◌, is_empty, split, last_part, Dict, at, Exec, pure,
  attempt, require, ◌>>=◌, ◌>>◌, map, for_each,
}
use role_srv.Strconv.{parse_int, parse_bool}
use role_srv.Proto.{Role, zero_role, UpdateInfo}
use role_srv.Services.{Services}
use role_srv.Handler.Keys.{valid_list_item, role_keys, role_types, role_key, description_key}

-- The checks of AddRole before its first command.
unfoldable pub check_role : {W : Type 0} → Role → Exec W (Unit {0})
check_role r = do
  require (not (is_empty r.type)) (str "type is required")
  require (not (is_empty r.short_name)) (str "ShortName is required")
  require (not (is_empty r.name)) (str "Name is required")
  require (not (is_empty r.filter_a)) (str "FilterA is required")
  require (not (is_empty r.filter_b)) (str "FilterB is required")
  require (valid_list_item r.type role_types)
      (str "`" ++ (r.type ++ str "` isn't a valid Role Type"))

unfoldable pub map_role_to_protobuf_role : Dict Str → Role
map_role_to_protobuf_role role = record {
  type = at (str "Type") role;
  short_name = at (str "ShortName") role;
  filter_a = at (str "FilterA") role;
  filter_b = at (str "FilterB") role;
  sig = parse_bool (at (str "Sig") role);
  joinable = parse_bool (at (str "Joinable") role);
  sync = parse_bool (at (str "Sync") role);
  name = at (str "Name") role;
  color = parse_int (at (str "Color") role) 32;
  hoist = parse_bool (at (str "Hoist") role);
  position = parse_int (at (str "Position") role) 32;
  permissions = parse_int (at (str "Permissions") role) 32;
  managed = parse_bool (at (str "Managed") role);
  mentionable = parse_bool (at (str "Mentionable") role);
}

-- The name of a role is what follows the last colon of its key.
unfoldable pub role_name : Str → Str
role_name k = last_part (split k b':')

module _ (S : Services) where
  open S use {World}
  open S.redis use {exists, keys, del, h_get_all, h_set, hm_set, key_name}

  unfoldable pub add_role : Role → Exec World (Unit {0})
  add_role r = do
    check_role r
    taken ← exists (role_key S r.short_name)
    require (not (taken == 1)) (str "Role `" ++ (r.name ++ str "` already exists."))
    a ← exists (description_key S r.filter_a)
    require (not (a == 0 && not (r.filter_a =? str "wildcard")))
        (str "FilterA `" ++ (r.filter_a ++ str "` doesn't exists."))
    b ← exists (description_key S r.filter_b)
    require (not (b == 0 && not (r.filter_b =? str "wildcard")))
        (str "FilterB `" ++ (r.filter_b ++ str "` doesn't exists."))
    hm_set (role_key S r.short_name) (S.structs_map r)
    pure tt

  -- The error of HSET is dropped.
  unfoldable pub update_role : UpdateInfo → Exec World (Unit {0})
  update_role u = do
    n ← exists (role_key S u.name)
    require (not (n == 0)) (str "Role `" ++ (u.name ++ str "` doesn't exists."))
    require (valid_list_item u.key role_keys)
        (str "`" ++ (u.key ++ str "` isn't a valid Role Key."))
    attempt (h_set (role_key S u.name) u.key u.value)
    pure tt

  unfoldable pub remove_role : Role → Exec World (Unit {0})
  remove_role r = do
    n ← exists (role_key S r.short_name)
    require (not (n == 0)) (str "Role `" ++ (r.short_name ++ str "` doesn't exists."))
    del (role_key S r.short_name)
    pure tt

  -- getRoles
  unfoldable pub role_names : Exec World (List Str)
  role_names = do ks ← keys (role_key S (str "*")); pure (map role_name ks)

  -- getRole
  unfoldable pub find_role : Str → Exec World (Dict Str)
  find_role name = do
    n ← exists (role_key S name)
    require (not (n == 0)) (str "role doesn't exist: " ++ name)
    h_get_all (role_key S name)

  unfoldable pub get_role : Role → Exec World Role
  get_role r = do role ← find_role r.short_name; pure (map_role_to_protobuf_role role)

  -- GetRoles fills in five fields; the others keep Go's zero values.
  unfoldable pub role_summary : Str → Dict Str → Role
  role_summary name info = record zero_role {
    short_name = name;
    name = at (str "Name") info;
    sig = not (at (str "Sig") info =? str "0");
    joinable = not (at (str "Joinable") info =? str "0");
    sync = not (at (str "Sync") info =? str "0");
  }

  unfoldable pub get_roles : Exec World (List Role)
  get_roles = do
    names ← role_names
    for_each (λ name. do info ← h_get_all (role_key S name); pure (role_summary name info)) names

  unfoldable pub get_role_keys : Exec World (List Str)
  get_role_keys = pure role_keys

  unfoldable pub get_role_types : Exec World (List Str)
  get_role_types = pure role_types
