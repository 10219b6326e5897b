-- ===== src/Handler/Sync/Roles.antt =====
-- syncRoles of handler/Roles.go: the roles of Discord are made those of the store.
pub mod Differences
pub mod Discord
pub mod Loops
pub mod Effect
pub mod Edits
pub mod Edited
pub mod Matches
use role_srv.Base.{
  Bool, false, not, ◌&&◌, ◌||◌, List, [], ◌∷◌, ◌++◌, Str, str, ◌=?◌, Dict, lookup, insert, at,
  Option, none, some, Exec, Result, ok, err, panic, pure, raise, crash, attempt, ◌>>=◌, ◌>>◌,
  if◌then◌else◌, for_each, fold_each,
}
use role_srv.Strconv.{parse_int, parse_bool}
use role_srv.Gateway.{DiscordRole, EditRoleRequest}
use role_srv.Services.{Services}
use role_srv.Handler.Keys.{role_key}
use role_srv.Handler.Roles.{role_names}
use role_srv.Handler.Sync.Report.{report, reporting}

-- `chremoasRoleData[r]`: a missing role reads as a nil map.
abbrev pub or_nil : Option (Dict Str) → Dict Str
or_nil none = []
or_nil (some d) = d

unfoldable pub edit_request : Dict Str → EditRoleRequest
edit_request d = record {
  name = at (str "Name") d;
  color = parse_int (at (str "Color") d) 64;
  perm = parse_int (at (str "Permissions") d) 64;
  position = parse_int (at (str "Position") d) 64;
  hoist = parse_bool (at (str "Hoist") d);
  mention = parse_bool (at (str "Mentionable") d);
  managed = parse_bool (at (str "Managed") d);
}

-- Does `text` end in `suffix`?
abbrev pub ends_with : Str → Str → Bool
ends_with suffix [] = suffix =? []
ends_with suffix (c ∷ s) = suffix =? (c ∷ s) || ends_with suffix s

abbrev pub has_newline : Str → Bool
has_newline [] = false
has_newline (c ∷ s) = (c ∷ []) =? (10 ∷ []) || has_newline s

-- The text behind a prefix.
abbrev pub strip_prefix : Str → Str → Option Str
strip_prefix [] s = some s
strip_prefix (c ∷ p) [] = none
strip_prefix (c ∷ p) (d ∷ s) = if (c ∷ []) =? (d ∷ []) then strip_prefix p s else none

-- ^The role '.*' already exists$: a dot matches all but a newline.
unfoldable pub match_discord_error : Str → Bool
unfolding str
match_discord_error e = elim (strip_prefix (str "The role '") e) [
  | none ↦ false
  | some s ↦ ends_with (str "' already exists") s && not (has_newline s)
]

module _ (S : Services) where
  open S use {World, gateway, ignored_roles, bot_role}
  open S.redis use {h_get_all}
  open S.sets use {StringSet, new, add, has, range, difference, intersection}

  -- chremoasRoleSet and chremoasRoleData
  pub record Wanted : Type 0 where
    pub names : StringSet
    pub infos : Dict (Dict Str)

  -- One round of the loop over the roles of the store.
  unfoldable pub gather_role : Str → Str → Wanted → Exec World Wanted
  gather_role channel role r = do
    c ← reporting S channel (str "syncRoles: HGetAll(): ") (h_get_all (role_key S role))
    let more : Wanted = record {
      names = add (at (str "Name") c) r.names;
      infos = insert (at (str "Name") c) c r.infos;
    }
    if at (str "Sync") c =? str "1" || at (str "Sync") c =? str "true" then pure more else pure r

  unfoldable pub add_all : List Str → StringSet → StringSet
  add_all [] s = s
  add_all (x ∷ xs) s = add_all xs (add x s)

  unfoldable pub ignore_set : StringSet
  ignore_set = add_all ignored_roles (add (str "@everyone") (add bot_role new))

  -- discordRoleSet
  unfoldable pub discord_names : List DiscordRole → StringSet → StringSet
  discord_names [] s = s
  discord_names (r ∷ rs) s = discord_names rs (if has ignore_set r.name then s else add r.name s)

  abbrev pub created : Str → Str → Result (Unit {0}) → Exec World (Unit {0})
  created channel r (ok _) = pure tt
  created channel r (err e) =
      let place = str "syncRoles: CreateRole() attempting to create '" ++ (r ++ str "': ") in
      let fail = report S channel place e >> raise e in
      if match_discord_error e then pure tt else fail
  created channel r panic = crash

  -- An error that says the role is there is dropped.
  unfoldable pub create_role : Str → Str → Exec World (Unit {0})
  create_role channel r = do outcome ← attempt (gateway.create_role r); created channel r outcome

  unfoldable pub delete_role : Str → Str → Exec World (Unit {0})
  delete_role channel r =
      reporting S channel (str "syncRoles: DeleteRole() Error Deleting '" ++ (r ++ str "': "))
        (gateway.delete_role r)

  unfoldable pub edit_role : Str → Dict (Dict Str) → Str → Exec World (Unit {0})
  edit_role channel infos r =
      reporting S channel (str "syncRoles: EditRole(): ")
        (gateway.edit_role (edit_request (or_nil (lookup r infos))))

  -- The three loops that apply the differences.
  unfoldable pub apply_roles : Str → Wanted → StringSet → Exec World (Unit {0})
  apply_roles channel wanted there = do
    for_each (create_role channel) (range (difference wanted.names there))
    for_each (delete_role channel) (range (difference there wanted.names))
    for_each (edit_role channel wanted.infos) (range (intersection there wanted.names))
    pure tt

  unfoldable pub sync_roles : Str → Exec World (Unit {0})
  sync_roles channel = do
    names ← reporting S channel (str "syncRoles: h.getRoles(): ") (role_names S)
    wanted ← fold_each (gather_role channel) names (record { names = new; infos = [] })
    roles ← reporting S channel (str "syncRoles: GetAllRoles: ") gateway.get_all_roles
    apply_roles channel wanted (discord_names roles new)
