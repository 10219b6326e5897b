-- ===== src/Tests/Data.antt =====
-- A role, a filter with members, and what runs over a store in memory compute with.
use role_srv.Base.{
  [], ◌∷◌, str, ◌=?◌, ◌≡◌, refl, true, ok, at, lookup, insert, contains, pos, negsuc, ◌>>=◌, split,
  last_part, keys,
}
use role_srv.Strconv.{parse_int, parse_uint, parse_bool, format_int}
use role_srv.Proto.{Role, zero_role}
use role_srv.Services.{Services}
use role_srv.Handler.Keys.{description_key, members_key, valid_list_item}
use role_srv.Handler.Roles.{
  add_role, check_role, get_role, find_role, remove_role, update_role, role_names, role_name,
  map_role_to_protobuf_role,
}
use role_srv.Handler.Membership.{role_membership, filters_membership, single_filter}
use role_srv.Handler.Filters.{
  add_filter, remove_filter, get_members, add_members, remove_members, add_each, remove_each,
}
use role_srv.Tests.Memory.Store.{
  Memory, text_value, set_value, put, overlay, erase, without, common, matching, drop_last,
}
use role_srv.Tests.Memory.Sets.{services, add_all, add_once}

abbrev pub S : Services
S = services [] []

abbrev pub alpha : Role
alpha = record zero_role {
  type = str "internal";
  short_name = str "alpha";
  name = str "Alpha Team";
  filter_a = str "corp";
  filter_b = str "wildcard";
  sync = true;
  color = pos 255;
  position = negsuc 0;
}

abbrev pub corp : Memory
corp = record {
  db =
      (description_key S (str "corp"), text_value (str "The corporation"))
      ∷ (members_key S (str "corp"), set_value (str "7" ∷ str "8" ∷ []))
      ∷ [];
  guild = [];
  users = [];
  edits = [];
}

-- Opening this opens what the runs below compute with.
unfoldable pub machine : Unit {0}
unfolding add_role check_role get_role find_role remove_role update_role role_names role_name
    map_role_to_protobuf_role parse_int parse_uint parse_bool format_int role_membership
    filters_membership single_filter add_filter remove_filter get_members add_members remove_members
    add_each remove_each valid_list_item at ◌>>=◌ str contains ◌=?◌ lookup insert put overlay erase
    without common matching drop_last split last_part keys add_all add_once
machine = tt

abbrev pub with_alpha : Memory
with_alpha = (add_role S alpha corp).1

pub add_role_runs : (add_role S alpha corp).0 ≡ ok tt
unfolding machine
add_role_runs = refl

pub get_role_runs : (get_role S alpha with_alpha).0 ≡ ok alpha
unfolding machine
get_role_runs = refl
