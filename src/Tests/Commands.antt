-- ===== src/Tests/Commands.antt =====
-- Commands of a connected client on a role.
use role_srv.Base.{
  List, inr, true, false, ℕ, [], ◌∷◌, str, ◌=?◌, ◌≡◌, refl, lookup, insert, pure, ok, pos, at,
  contains, List, split, ◌>>=◌, arith,
}
use role_srv.Strconv.{parse_bool, parse_int, parse_uint, format_int, parse_int16, parse_hex}
use role_srv.Strconv.Hex.{AreDigits, digit_char}
use role_srv.Proto.{Role, zero_role}
use role_srv.Handler.Roles.{get_role, find_role, map_role_to_protobuf_role, update_role}
use role_srv.Handler.Roles.Update.{WriteReplies}
use role_srv.Handler.Keys.{role_key, valid_list_item}
use role_srv.Client.Roles.{remove_role, set, set_known, set_value, color_value, set_converted}
use role_srv.Client.Removed.{Aside, remove_role-keeps}
use role_srv.Client.Recolored.{hex_color, recolor, get_role-set}
use role_srv.Client.Guarded.{client, flag}
use role_srv.Client.Services.{or_fatal, sync_after, get_sync_request}
use role_srv.Stub.{service_name, new_roles_service, register_roles_handler}
use role_srv.Stub.Served.{roles_handler}
use role_srv.Tests.Memory.Store.{Memory, overlay, put, hash_value}
use role_srv.Tests.Memory.Laws.{memory_laws}
use role_srv.Tests.Memory.Sets.{add_all, add_once, list_sets_laws}
use role_srv.Tests.Connected.{S, send, connected, front, delivers}

-- A store with a role.
abbrev painted : Memory
painted = record {
  db =
      (role_key S (str "r"), hash_value ((str "Name", str "R") ∷ (str "Color", str "0") ∷ [])) ∷ [];
  guild = [];
  users = [];
  edits = [];
}

-- ff8000
abbrev orange : List ℕ
orange = 15 ∷ 8 ∷ 0 ∷ 0 ∷ 0 ∷ []

abbrev orange_role : Role
orange_role = record zero_role { name = str "R"; color = pos 16744448 }

orange_replies : WriteReplies S memory_laws (recolor (str "r") 16744448) painted
unfolding put lookup str ◌=?◌ insert
orange_replies = refl

orange_accepted : (update_role S (recolor (str "r") 16744448) painted).0 ≡ ok tt
unfolding update_role put lookup str ◌=?◌ insert valid_list_item contains ◌>>=◌
orange_accepted = refl

orange_digits : AreDigits (15 ∷ orange)
orange_digits = omega arith

orange_is_stored :
    (get_role S
      (record zero_role { short_name = str "r" })
      (set
        (client S front (new_roles_service connected []))
        (str "c:1")
        (str "r")
        (str "Color")
        (hex_color 15 orange)
        painted).1).0
    ≡ ok orange_role
unfolding get_role find_role map_role_to_protobuf_role parse_bool parse_int parse_uint set set_known
    set_value color_value set_converted or_fatal sync_after get_sync_request update_role put lookup
    str ◌=?◌ insert valid_list_item contains ◌>>=◌ at new_roles_service register_roles_handler
    roles_handler digit_char parse_int16 parse_hex format_int add_all add_once split overlay
orange_is_stored = refl

get_role-set_example : orange_role.color ≡ pos 16744448
unfolding pure
get_role-set_example =
    get_role-set S memory_laws front send connected [] (str "c:1") (str "r") 15 orange painted
      orange_role (delivers (service_name []) (register_roles_handler (roles_handler S send)))
      list_sets_laws orange_digits (omega arith) (λ q x. refl) orange_replies orange_accepted
      orange_is_stored

nothing_touched : Aside S memory_laws front send
unfolding pure
nothing_touched = record { permission_aside = λ s w j. refl; send_aside = λ r w j. refl }

no_sig : flag S memory_laws painted (str "r") (str "Sig") ≡ false
unfolding lookup str ◌=?◌ parse_bool contains
no_sig = refl

-- The role is no SIG, so it is not removed as one.
remove_role-keeps_example :
    memory_laws.view
      (remove_role
        (client S front (new_roles_service connected []))
        (str "c:1")
        (str "r")
        true
        painted).1
      (role_key S (str "r"))
    ≡ memory_laws.view painted (role_key S (str "r"))
remove_role-keeps_example =
    remove_role-keeps S memory_laws front send connected [] (str "c:1") (str "r") true painted
      (role_key S (str "r"))
      (delivers (service_name []) (register_roles_handler (roles_handler S send))) nothing_touched
      (inr (inr (λ e. ground (arith, no_sig))))
