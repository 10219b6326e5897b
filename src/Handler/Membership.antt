-- ===== src/Handler/Membership.antt =====
-- Who has a role: getRoleMembership of handler/Roles.go and its two callers.
pub mod Who
pub mod Listing
use role_srv.Base.{
  not, List, [], ◌∷◌, ◌++◌, Str, str, ◌=?◌, ◌==◌, at, Exec, pure, require, ◌>>=◌, ◌>>◌,
  if◌then◌else◌, fold_each,
}
use role_srv.Proto.{Role}
use role_srv.Services.{Services}
use role_srv.Handler.Keys.{role_key, description_key, members_key}
use role_srv.Handler.Roles.{role_names, find_role, map_role_to_protobuf_role}

module _ (S : Services) where
  open S use {World}
  open S.redis use {exists, h_get_all, s_members, s_inter}
  open S.sets use {StringSet, new, from_slice, range, has}

  -- The branch of a role with one filter and a wildcard.
  unfoldable pub single_filter : Str → Exec World StringSet
  single_filter filter = do
    n ← exists (description_key S filter)
    require (not (n == 0)) (str "Filter `" ++ (filter ++ str "` doesn't exists."))
    xs ← s_members (members_key S filter)
    pure (from_slice xs new)

  unfoldable pub both_filters : Str → Str → Exec World StringSet
  both_filters a b = do xs ← s_inter (members_key S a) (members_key S b); pure (from_slice xs new)

  -- What getRoleMembership does with the role's two filters.
  unfoldable pub filters_membership : Str → Str → Exec World StringSet
  filters_membership a b =
      if b =? str "wildcard"
      then single_filter a
      else if a =? str "wildcard"
      then single_filter b
      else both_filters a b

  -- getRoleMembership
  unfoldable pub role_membership : Str → Exec World StringSet
  role_membership role = do
    r ← h_get_all (role_key S role)
    filters_membership (at (str "FilterA") r) (at (str "FilterB") r)

  unfoldable pub get_role_membership : Str → Exec World (List Str)
  get_role_membership name = do members ← role_membership name; pure (range members)

  -- One round of the loop of ListUserRoles.
  unfoldable pub add_if_member : Str → Str → List Role → Exec World (List Role)
  add_if_member user role found = do
    members ← role_membership role
    let with_role = do
      info ← find_role S role
      pure (found ++ (map_role_to_protobuf_role info ∷ []))
    if has members user then with_role else pure found

  unfoldable pub list_user_roles : Str → Exec World (List Role)
  list_user_roles user = do names ← role_names S; fold_each (add_if_member user) names []
