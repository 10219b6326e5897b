-- ===== src/Tests/Memory/Sets.antt =====
-- Sets of strings as lists, and the services in memory.
use role_srv.Base.{
  ◌≡◌, ◌↔◌, refl, false, not, ◌&&◌, ◌||◌, List, [], ◌∷◌, ◌++◌, Str, str, ◌=?◌, =?_iff, contains,
  is_empty, length, if◌then◌else◌, arith, ok, lookup, Dict,
}
use role_srv.Strconv.{format_int}
use role_srv.Proto.{Role}
use role_srv.StringSets.{StringSets, StringSetLaws}
use role_srv.Handler.Roles.RoundTrip.{bit, IsRoleMap}
use role_srv.Gateway.{Gateway, Member, DiscordRole}
use role_srv.Services.{Services}
use role_srv.Tests.Memory.Store.{Memory, memory, common}
use role_srv.Tests.Memory.Dicts.{contains-common}

unfoldable pub add_once : Str → List Str → List Str
add_once a s = if is_empty a || contains s a then s else a ∷ s

unfoldable pub add_all : List Str → List Str → List Str
add_all [] s = s
add_all (x ∷ xs) s = add_all xs (add_once x s)

unfoldable pub minus : List Str → List Str → List Str
minus [] t = []
minus (x ∷ xs) t = let rest = minus xs t in if contains t x then rest else x ∷ rest

abbrev pub list_sets : StringSets
list_sets = record {
  StringSet = List Str;
  new = [];
  add = add_once;
  from_slice = add_all;
  has = contains;
  len = length;
  range = λ s. s;
  difference = minus;
  intersection = common;
}

pub contains-add_once :
    (a x : Str) (s : List Str)
    → contains (add_once a s) x ≡ ((not (is_empty a) && a =? x) || contains s x)
unfolding add_once contains
contains-add_once a x s = ground (arith, =?_iff a x)

pub contains-add_all :
    (l : List Str) (x : Str) (s : List Str)
    → contains (add_all l s) x ≡ ((not (is_empty x) && contains l x) || contains s x)
unfolding add_all contains
contains-add_all [] x s = ground arith
contains-add_all (a ∷ l) x s =
    ground (arith, contains-add_all l x (add_once a s), contains-add_once a x s, =?_iff a x)

pub contains-minus :
    (s t : List Str) (x : Str) → contains (minus s t) x ≡ (contains s x && not (contains t x))
unfolding minus contains
contains-minus [] t x = refl
contains-minus (a ∷ s) t x = ground (arith, contains-minus s t x, =?_iff a x)

pub length_zero : (s : List Str) → (length s ≡ 0) ↔ (s ≡ [])
length_zero [] = (λ _. refl, λ _. refl)
length_zero (x ∷ s) = (λ e. absurd (omega arith), λ e. cc)

pub not-has-new : (x : Str) → contains [] x ≡ false
unfolding contains
not-has-new x = refl

abbrev pub list_sets_laws : StringSetLaws list_sets
list_sets_laws = record {
  has-new = not-has-new;
  has-add = contains-add_once;
  has-from_slice = contains-add_all;
  has-difference = contains-minus;
  has-intersection = contains-common;
  contains-range = λ s x. refl;
  len_zero = length_zero;
}

abbrev pub role_fields : Role → Dict Str
role_fields r =
    (str "Type", r.type)
    ∷ (str "ShortName", r.short_name)
    ∷ (str "FilterA", r.filter_a)
    ∷ (str "FilterB", r.filter_b)
    ∷ (str "Sig", bit r.sig)
    ∷ (str "Joinable", bit r.joinable)
    ∷ (str "Sync", bit r.sync)
    ∷ (str "Name", r.name)
    ∷ (str "Color", format_int r.color)
    ∷ (str "Hoist", bit r.hoist)
    ∷ (str "Position", format_int r.position)
    ∷ (str "Permissions", format_int r.permissions)
    ∷ (str "Managed", bit r.managed)
    ∷ (str "Mentionable", bit r.mentionable)
    ∷ []

-- A gateway with fixed members and roles.
abbrev pub gateway : List Member → List DiscordRole → Gateway Memory
gateway members roles = record {
  get_all_members = λ n after w. (ok (if is_empty after then members else []), w);
  get_all_members_as_slice = λ w. (ok members, w);
  get_all_roles = λ w. (ok roles, w);
  create_role = λ r w. (ok tt, w);
  delete_role = λ r w. (ok tt, w);
  edit_role = λ r w. (ok tt, w);
  update_member = λ m ids w. (ok tt, w);
  send_message = λ c m w. (ok tt, w);
}

abbrev pub services : List Member → List DiscordRole → Services
services members roles = record {
  World = Memory;
  redis = memory;
  gateway = gateway members roles;
  sets = list_sets;
  structs_map = role_fields;
  ignored_roles = str "Boss" ∷ [];
  bot_role = str "Bot";
  send_success = λ s. str "ok " ++ s;
  send_fatal = λ s. str "fatal " ++ s;
  now = λ w. 0;
  show_duration = λ n. str "0s";
  order = λ ks. ks;
}

pub role_fields_lem : IsRoleMap role_fields
unfolding lookup str ◌=?◌
role_fields_lem = record {
  type = λ r. refl;
  short_name = λ r. refl;
  filter_a = λ r. refl;
  filter_b = λ r. refl;
  sig = λ r. refl;
  joinable = λ r. refl;
  sync = λ r. refl;
  name = λ r. refl;
  color = λ r. refl;
  hoist = λ r. refl;
  position = λ r. refl;
  permissions = λ r. refl;
  managed = λ r. refl;
  mentionable = λ r. refl;
}
