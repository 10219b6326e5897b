-- ===== src/Tests/Listings.antt =====
-- ListRoles and RemoveAllMembers of a connected client.
use role_srv.Base.{
  is_empty, ◌&&◌, Str, none, some, map, for_each, List, true, false, [], ◌∷◌, str, ◌≡◌, refl, pure,
  ok, List,
}
use role_srv.Proto.{Role, zero_role}
use role_srv.Tests.Data.{machine}
use role_srv.Handler.Roles.{role_names, get_roles, role_summary}
use role_srv.Handler.Keys.{description_key, members_key, role_key}
use role_srv.Redis.{has}
use role_srv.Client.Filters.{remove_all_members}
use role_srv.Client.Emptied.{Answered, remove_all_members-empties}
use role_srv.Client.Listed.{Shows, shown, list_roles-Shows}
use role_srv.Client.Roles.{list_roles}
use role_srv.Client.Guarded.{client}
use role_srv.Stub.{service_name, new_roles_service, register_roles_handler}
use role_srv.Stub.Served.{roles_handler}
use role_srv.Tests.Memory.Store.{text_value, set_value as members_value, Memory, hash_value}
use role_srv.Tests.Memory.Laws.{memory_laws}
use role_srv.Tests.Connected.{S, send, connected, front, delivers}

-- A store with a SIG that anyone may join, one that no one may, and a role.
abbrev mixed : Memory
mixed = record {
  db =
      (
        role_key S (str "a"),
        hash_value ((str "Name", str "A") ∷ (str "Sig", str "1") ∷ (str "Joinable", str "1") ∷ []),
      )
      ∷ (
        role_key S (str "b"),
        hash_value ((str "Name", str "B") ∷ (str "Sig", str "1") ∷ (str "Joinable", str "0") ∷ []),
      )
      ∷ (role_key S (str "c"), hash_value ((str "Name", str "C") ∷ (str "Sig", str "0") ∷ []))
      ∷ [];
  guild = [];
  users = [];
  edits = [];
}

abbrev mixed_names : List Str
mixed_names = str "a" ∷ str "b" ∷ str "c" ∷ []

abbrev mixed_roles : List Role
mixed_roles =
    record zero_role {
      short_name = str "a";
      name = str "A";
      sig = true;
      joinable = true;
      sync = true;
    }
    ∷ record zero_role { short_name = str "b"; name = str "B"; sig = true; sync = true }
    ∷ record zero_role { short_name = str "c"; name = str "C"; joinable = true; sync = true }
    ∷ []

mixed_listed : (role_names S mixed).0 ≡ ok mixed_names
unfolding machine
mixed_listed = refl

mixed_got : (get_roles S mixed).0 ≡ ok mixed_roles
unfolding machine get_roles role_summary for_each
mixed_got = refl

list_roles-Shows_example :
    Shows S memory_laws
      (client S front (new_roles_service connected []))
      true
      (λ k. shown S (memory_laws.view mixed) false true k mixed_names none)
      (list_roles (client S front (new_roles_service connected [])) false true)
      mixed
list_roles-Shows_example =
    list_roles-Shows S memory_laws front send connected [] false true mixed mixed_names mixed_roles
      (delivers (service_name []) (register_roles_handler (roles_handler S send))) mixed_listed
      mixed_got

-- Of the three, only the first is shown.
one_is_shown :
    map (λ k. shown S (memory_laws.view mixed) false true k mixed_names none) mixed_names
    ≡ some (str "A") ∷ none ∷ none ∷ []
unfolding machine
one_is_shown = refl

-- A filter with a member without an id.
abbrev crowded : Memory
crowded = record {
  db =
      (description_key S (str "f"), text_value (str "F"))
      ∷ (members_key S (str "f"), members_value (str "7" ∷ [] ∷ str "8" ∷ []))
      ∷ [];
  guild = [];
  users = [];
  edits = [];
}

crowded_answers : Answered S memory_laws (str "f") crowded
unfolding machine
crowded_answers = record {
  listed = str "7" ∷ str "8" ∷ [];
  asked = refl;
  count = 0;
  there = refl;
  removed = (refl, (refl, tt));
}

remove_all_members-empties_example :
    has
      (memory_laws.view
        (remove_all_members
          (client S front (new_roles_service connected []))
          (str "f")
          (str "c:1")
          crowded).1
        (members_key S (str "f")))
      (str "7")
    ≡ (is_empty (str "7") && has (memory_laws.view crowded (members_key S (str "f"))) (str "7"))
unfolding pure
remove_all_members-empties_example =
    remove_all_members-empties S memory_laws front send connected [] (str "f") (str "c:1") crowded
      (str "7") (delivers (service_name []) (register_roles_handler (roles_handler S send)))
      crowded_answers (λ r v. refl)
