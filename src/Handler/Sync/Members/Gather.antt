-- ===== src/Handler/Sync/Members/Gather.antt =====
-- The first half of syncMembers: what Discord and the store say of each user.
use role_srv.Base.{
  ℕ, zero, suc, Bool, true, false, ◌||◌, List, [], ◌∷◌, ◌++◌, Str, str, ◌=?◌, is_empty, Dict,
  lookup, insert, at, Option, none, some, Exec, pure, ◌>>=◌, if◌then◌else◌, ℤ, pos, negsuc, ltb,
}
use role_srv.Strconv.{parse_int}
use role_srv.Gateway.{Member, DiscordRole}
use role_srv.Services.{Services}
use role_srv.Handler.Membership.{role_membership}
use role_srv.Handler.Roles.{find_role}
use role_srv.Handler.Sync.Report.{reporting}

-- `a > b`
abbrev pub gt : ℤ → ℤ → Bool
gt (pos a) (pos b) = ltb b a
gt (pos a) (negsuc b) = true
gt (negsuc a) (pos b) = false
gt (negsuc a) (negsuc b) = ltb a b

-- The later of two ids, read as numbers by Atoi; the first stays where they are equal.
unfoldable pub later_id : Str → Str → Str
later_id last id = if gt (parse_int id 64) (parse_int last 64) then id else last

abbrev pub number_per_page : ℕ
number_per_page = 1000

-- `roleNameMap`: the later of two roles of one name stays.
unfoldable pub role_name_map : List DiscordRole → Dict Str → Dict Str
role_name_map [] d = d
role_name_map (r ∷ rs) d = role_name_map rs (insert r.name r.id d)

module _ (S : Services) where
  open S use {World, gateway}
  open S.sets use {StringSet, new, add, range}

  -- discordMemberships, chremoasMemberships, idToNameMap and memberId
  pub record Gathered : Type 0 where
    pub discord : Dict StringSet
    pub chremoas : Dict StringSet
    pub names : Dict Str
    pub last : Str

  abbrev pub or_new : Option StringSet → StringSet
  or_new none = new
  or_new (some s) = s

  -- `if _, ok := m[k]; !ok { m[k] = NewStringSet() }`
  unfoldable pub ensure : Str → Dict StringSet → Dict StringSet
  ensure k d = insert k (or_new (lookup k d)) d

  unfoldable pub add_names : List DiscordRole → StringSet → StringSet
  add_names [] s = s
  add_names (r ∷ rs) s = add_names rs (add r.name s)

  -- One round of the loop over a page.
  unfoldable pub gather_member : Member → Gathered → Gathered
  gather_member m g = record {
    discord = insert m.user.id (add_names m.roles (or_new (lookup m.user.id g.discord))) g.discord;
    chremoas = ensure m.user.id g.chremoas;
    names = insert m.user.id m.user.username g.names;
    last = later_id g.last m.user.id;
  }

  unfoldable pub gather_page : List Member → Gathered → Gathered
  gather_page [] g = g
  gather_page (m ∷ ms) g = gather_page ms (gather_member m g)

  abbrev pub page_is_empty : List Member → Bool
  page_is_empty [] = true
  page_is_empty (m ∷ ms) = false

  -- `for memberCount > 0`: pages are read until one is empty. `none` means that the fuel ran out.
  unfoldable pub gather_pages : Str → ℕ → Gathered → Exec World (Option Gathered)
  gather_pages channel zero g = pure none
  gather_pages channel (suc fuel) g = do
    page ←
        reporting S channel (str "syncMembers: GetAllMembers: ")
          (gateway.get_all_members number_per_page g.last)
    let rest = gather_pages channel fuel (gather_page page g)
    if page_is_empty page then pure (some g) else rest

  abbrev pub start : Gathered
  start = record { discord = []; chremoas = []; names = []; last = [] }

  -- The round of the loop over `membership.Set` for one member.
  unfoldable pub give_role : Str → List Str → Dict StringSet → Dict StringSet
  give_role name [] d = d
  give_role name (m ∷ ms) d =
      give_role name ms (if is_empty m then d else insert m (add name (or_new (lookup m d))) d)

  abbrev pub is_off : Str → Bool
  is_off sync = sync =? str "0" || sync =? str "false"

  -- One round of the loop over the roles of the store.
  unfoldable pub gather_role : Str → Str → Dict StringSet → Exec World (Dict StringSet)
  gather_role channel r d = do
    role ← reporting S channel (str "syncMembers: getRole: " ++ (r ++ str ": ")) (find_role S r)
    let read = do
      membership ←
          reporting S channel (str "syncMembers: getRoleMembership: ") (role_membership S r)
      again ← reporting S channel (str "syncMembers: getRole: ") (find_role S r)
      pure (give_role (at (str "Name") again) (range membership) d)
    if is_off (at (str "Sync") role) then pure d else read
