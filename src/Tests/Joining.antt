-- ===== src/Tests/Joining.antt =====
-- The commands on SIGs of a connected client, where the SIG is open.
use role_srv.Base.{
  [], ◌∷◌, Str, str, ◌=?◌, =?_iff, ◌≡◌, ◌≢◌, arith, refl, true, false, lookup, pure,
}
use role_srv.Strconv.{parse_bool}
use role_srv.Handler.Keys.{role_key, members_key, description_key}
use role_srv.Handler.Keys.Distinct.{members_key-injective}
use role_srv.Client.Sigs.{sig_action}
use role_srv.Client.Confined.{Apart, filter_of, sig_action_confined}
use role_srv.Base.{◌++◌, insert, ◌>>=◌, at, contains}
use role_srv.Base.Text.Split.{Lacks}
use role_srv.Strconv.{parse_int, parse_uint}
use role_srv.Proto.{zero_role}
use role_srv.Redis.{has}
use role_srv.Handler.Roles.{get_role, find_role, map_role_to_protobuf_role}
use role_srv.Handler.Filters.{add_members, add_each, remove_members, remove_each}
use role_srv.Tests.Memory.Store.{put}
use role_srv.Tests.Connected.{S, send, connected, front, delivers}
use role_srv.Client.Joined.{Accepted, joined, sig_action-changes}
use role_srv.Client.Guarded.{client, allows}
use role_srv.Stub.{service_name, new_roles_service, register_roles_handler}
use role_srv.Stub.Served.{roles_handler}
use role_srv.Tests.Memory.Store.{Memory, hash_value, text_value}
use role_srv.Tests.Memory.Laws.{memory_laws}

-- A store with a SIG that anyone may join.
abbrev open_sig : Memory
open_sig = record {
  db =
      (
        role_key S (str "sig"),
        hash_value
            ((str "Sig", str "1") ∷ (str "Joinable", str "1") ∷ (str "FilterB", str "b") ∷ []),
      )
      ∷ (description_key S (str "b"), text_value (str "B"))
      ∷ [];
  guild = [];
  users = [];
  edits = [];
}

abbrev other_members : Str
other_members = members_key S (str "a")

nothing_sent : Apart S memory_laws front send other_members
unfolding pure
nothing_sent = record { send_apart = λ r v. refl; gateway_apart = λ v. refl }

a_is_not_b : (str "a" =? filter_of S memory_laws open_sig (str "sig")) ≡ false
unfolding str lookup ◌=?◌
a_is_not_b = refl

a-ne-b : other_members ≢ members_key S (filter_of S memory_laws open_sig (str "sig"))
a-ne-b e =
    let b = filter_of S memory_laws open_sig (str "sig") in
    let same = members_key-injective S memory_laws (str "a") b e in
    ground (arith, a_is_not_b, =?_iff (str "a") b, same)

sig_action_confined_example :
    memory_laws.view
      (sig_action
        (client S front (new_roles_service connected []))
        (str "c:1")
        (str "sig")
        true
        true
        open_sig).1
      other_members
    ≡ memory_laws.view open_sig other_members
sig_action_confined_example =
    sig_action_confined S memory_laws front send connected [] (str "c:1") (str "sig") true true
      open_sig other_members
      (delivers (service_name []) (register_roles_handler (roles_handler S send))) nothing_sent
      a-ne-b

sender_channel : Lacks b':' (str "c")
unfolding str
sender_channel = (refl, tt)

sender_id : Lacks b':' (str "1")
unfolding str
sender_id = (refl, tt)

join_accepted : Accepted S memory_laws front send (str "c") (str "1") (str "sig") true true open_sig
unfolding get_role find_role map_role_to_protobuf_role parse_bool parse_int parse_uint add_members
    add_each remove_members remove_each put at ◌>>=◌ lookup insert str ◌=?◌ contains
join_accepted = record {
  first = record zero_role { sig = true; joinable = true; filter_b = str "b" };
  second = record zero_role { sig = true; joinable = true; filter_b = str "b" };
  first_read = refl;
  second_read = refl;
  changed = refl;
}

allowed : allows S memory_laws open_sig (str "sig") true ≡ true
unfolding lookup str ◌=?◌ parse_bool contains
allowed = refl

nothing_sent_there :
    Apart S memory_laws front send (members_key S (filter_of S memory_laws open_sig (str "sig")))
unfolding pure
nothing_sent_there = record { send_apart = λ r v. refl; gateway_apart = λ v. refl }

sig_action-changes_example :
    has
      (memory_laws.view
        (sig_action
          (client S front (new_roles_service connected []))
          (str "c" ++ b':' ∷ str "1")
          (str "sig")
          true
          true
          open_sig).1
        (members_key S (filter_of S memory_laws open_sig (str "sig"))))
      (str "1")
    ≡ joined S true
        (str "1")
        (has (
          memory_laws.view open_sig (members_key S (filter_of S memory_laws open_sig (str "sig")))))
        (str "1")
sig_action-changes_example =
    sig_action-changes S memory_laws front send connected [] (str "c") (str "1") (str "sig") true
      true open_sig (str "1")
      (delivers (service_name []) (register_roles_handler (roles_handler S send))) sender_channel
      sender_id join_accepted allowed nothing_sent_there
