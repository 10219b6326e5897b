-- ===== src/Handler/Reads.antt =====
-- The six handlers that only read: GetRole, GetRoles, GetRoleMembership, ListUserRoles, GetFilters
-- and GetMembers.
use role_srv.Base.{Str, List, ◌≡◌, refl, Keeps}
use role_srv.Proto.{Role}
use role_srv.Redis.{RedisLaws, Entry}
use role_srv.Redis.Frames.{Holds, redis_frames}
use role_srv.Services.{Services}
use role_srv.Handler.Roles.{get_role, get_roles, role_names}
use role_srv.Handler.Roles.Find.{find_role-Keeps}
use role_srv.Handler.Membership.{
  role_membership, filters_membership, single_filter, both_filters, get_role_membership,
  add_if_member, list_user_roles,
}
use role_srv.Handler.Filters.{get_filters, get_members}

module _ (S : Services) (L : RedisLaws S.redis) (j : Str) (e : Entry) where
  pub role_names-Keeps : Keeps (Holds S.redis L j e) (role_names S)
  unfolding role_names
  role_names-Keeps = search redis_frames depth 12

  pub role_membership-Keeps : (r : Str) → Keeps (Holds S.redis L j e) (role_membership S r)
  unfolding role_membership filters_membership single_filter both_filters
  role_membership-Keeps r = search redis_frames depth 20

  add_if_member-Keeps :
      (user role : Str) (found : List Role)
      → Keeps (Holds S.redis L j e) (add_if_member S user role found)
  unfolding add_if_member
  add_if_member-Keeps user role found =
      search (redis_frames, role_membership-Keeps, find_role-Keeps) depth 20

  pub get_role-Keeps : (r : Role) → Keeps (Holds S.redis L j e) (get_role S r)
  unfolding get_role
  get_role-Keeps r = search (redis_frames, find_role-Keeps) depth 12

  get_roles-Keeps : Keeps (Holds S.redis L j e) (get_roles S)
  unfolding get_roles
  get_roles-Keeps = search (redis_frames, role_names-Keeps) depth 12

  get_role_membership-Keeps : (r : Str) → Keeps (Holds S.redis L j e) (get_role_membership S r)
  unfolding get_role_membership
  get_role_membership-Keeps r = search (redis_frames, role_membership-Keeps) depth 12

  list_user_roles-Keeps : (user : Str) → Keeps (Holds S.redis L j e) (list_user_roles S user)
  unfolding list_user_roles
  list_user_roles-Keeps user = search (redis_frames, role_names-Keeps, add_if_member-Keeps) depth 12

  get_filters-Keeps : Keeps (Holds S.redis L j e) (get_filters S)
  unfolding get_filters
  get_filters-Keeps = search redis_frames depth 20

  get_members-Keeps : (f : Str) → Keeps (Holds S.redis L j e) (get_members S f)
  unfolding get_members
  get_members-Keeps f = search redis_frames depth 12

module _ (S : Services) (L : RedisLaws S.redis) where
  -- Whatever they reply, the six handlers that only read change no key.
  pub reads_frame :
      (r : Role) (s : Str) (w : S.World) (j : Str)
      → (L.view (get_role S r w).1 j ≡ L.view w j)
        × (L.view (get_roles S w).1 j ≡ L.view w j)
        × (L.view (get_role_membership S s w).1 j ≡ L.view w j)
        × (L.view (list_user_roles S s w).1 j ≡ L.view w j)
        × (L.view (get_filters S w).1 j ≡ L.view w j)
        × (L.view (get_members S s w).1 j ≡ L.view w j)
  reads_frame r s w j =
      let e = L.view w j in
      let now : Holds S.redis L j e w = record { at = refl } in
      (
        ((get_role-Keeps S L j e r).at w now).at,
        ((get_roles-Keeps S L j e).at w now).at,
        ((get_role_membership-Keeps S L j e s).at w now).at,
        ((list_user_roles-Keeps S L j e s).at w now).at,
        ((get_filters-Keeps S L j e).at w now).at,
        ((get_members-Keeps S L j e s).at w now).at,
      )
