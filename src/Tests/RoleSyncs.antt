-- ===== src/Tests/RoleSyncs.antt =====
-- Synchronisations of roles over a Discord server in memory.
use role_srv.Base.{
  not, [], ◌∷◌, str, ◌=?◌, ◌≡◌, refl, ok, lookup, insert, at, ◌>>=◌, contains, ◌||◌, keys, split,
  last_part, for_each, fold_each, is_empty, true, false,
}
use role_srv.Handler.Keys.{role_key}
use role_srv.Handler.Roles.{role_names, role_name}
use role_srv.Proto.{SyncRequest}
use role_srv.Handler.Sync.Thread.{sync_once}
use role_srv.Handler.Sync.Thread.Turn.{TurnLaws, first_message, begun, sync_once-makes}
use role_srv.Handler.Sync.Report.{send_dual_message, reporting, report, send_message}
use role_srv.Handler.Sync.Roles.{
  sync_roles, gather_role, apply_roles, create_role, delete_role, edit_role, discord_names,
  ignore_set, add_all, match_discord_error,
}
use role_srv.Handler.Sync.Roles.Differences.{ignored}
use role_srv.Handler.Sync.Roles.Edits.{blank}
use role_srv.Handler.Sync.Roles.Edited.{wanted_request, sync_roles-sets}
use role_srv.Handler.Sync.Roles.Effect.{wants, settled_role, is_there_after, sync_roles-makes}
use role_srv.Tests.Memory.Store.{Memory, hash_value, matching, drop_last, common}
use role_srv.Tests.Memory.Laws.{memory_laws}
use role_srv.Tests.Memory.Sets.{list_sets_laws, add_once, minus}
use role_srv.Tests.Memory.Sets as Sets
use role_srv.Tests.Memory.Cached.{cached, cached_laws}
use role_srv.Tests.Memory.Guild.{live, live_laws, live_edits, drop_role}

-- One role that is on; on Discord an old role and a protected one.
abbrev pub town : Memory
town = record {
  db =
      (role_key live (str "a"), hash_value ((str "Name", str "New") ∷ (str "Sync", str "1") ∷ []))
      ∷ [];
  guild =
      record { id = str "1"; name = str "Old" } ∷ record { id = str "2"; name = str "Boss" } ∷ [];
  users = [];
  edits = [];
}

-- Opening this opens what the runs below compute with.
machine : Unit {0}
unfolding sync_roles gather_role apply_roles create_role delete_role edit_role discord_names
    ignore_set add_all role_names role_name reporting report send_message at ◌>>=◌ for_each
    fold_each str contains ◌=?◌ lookup insert keys split last_part matching drop_last common
    add_once minus drop_role Sets.add_all
machine = tt

new_given : is_empty (str "New") ≡ false
unfolding str
new_given = refl

-- Discord has the role.
abbrev built : Memory
built = record town { guild = record { id = str "3"; name = str "New" } ∷ [] }

-- The list that GetAllRoles replies with lacks the role.
cached_names : (role_names cached built).0 ≡ ok (str "a" ∷ [])
unfolding machine
cached_names = refl

cached_runs : (sync_roles cached (str "c") built).0 ≡ ok tt
unfolding machine match_discord_error
cached_runs = refl

sync_roles-makes_example :
    cached_laws.there (sync_roles cached (str "c") built).1 (str "New")
    ≡ is_there_after cached memory_laws list_sets_laws cached_laws built (str "a" ∷ []) (str "New")
sync_roles-makes_example =
    sync_roles-makes cached memory_laws list_sets_laws cached_laws (str "c") built (str "a" ∷ [])
      (str "New") new_given cached_names cached_runs

built_names : (role_names live built).0 ≡ ok (str "a" ∷ [])
unfolding machine
built_names = refl

built_runs : (sync_roles live (str "c") built).0 ≡ ok tt
unfolding machine
built_runs = refl

new_is_wanted :
    wants live memory_laws list_sets_laws live_laws
      (memory_laws.view built)
      (str "a" ∷ [])
      (str "New")
    ≡ true
unfolding machine
new_is_wanted = refl

new_is_listed : live_laws.listed built (str "New") ≡ true
unfolding machine
new_is_listed = refl

new_is_open : ignored live list_sets_laws (str "New") ≡ false
unfolding machine
new_is_open = refl

sync_roles-sets_example :
    live_edits.attributes (sync_roles live (str "c") built).1 (str "New")
    ≡ wanted_request live memory_laws list_sets_laws live_laws
        (memory_laws.view built)
        (str "a" ∷ [])
        (str "New")
        blank
sync_roles-sets_example =
    sync_roles-sets live memory_laws list_sets_laws live_laws live_edits (str "c") built
      (str "a" ∷ []) (str "New") built_names built_runs new_given new_is_wanted new_is_listed
      new_is_open

abbrev turn : SyncRequest
turn = record { channel_id = str "c"; user_id = str "1"; send_message = true }

live_turn_laws : TurnLaws live memory_laws live_laws
live_turn_laws = record {
  exists_apart = λ k w x. refl;
  s_members_apart = λ k w x. refl;
  s_inter_apart = λ a b w x. refl;
  s_is_member_apart = λ k y w x. refl;
  get_all_members_apart = λ n a w x. refl;
  update_member_apart = λ m ids w x. refl;
  send_apart = λ c t w x. refl;
  send_store = λ c t w. refl;
}

first_message_runs : (first_message live turn town).0 ≡ ok tt
unfolding machine send_dual_message
first_message_runs = refl

turn_names : (role_names live (begun live turn town)).0 ≡ ok (str "a" ∷ [])
unfolding machine send_dual_message
turn_names = refl

turn_runs : (sync_roles live (str "c") (begun live turn town)).0 ≡ ok tt
unfolding machine send_dual_message
turn_runs = refl

sync_once-makes_example :
    live_laws.there (sync_once live 5 turn town).1 (str "New")
    ≡ settled_role
        (wants live memory_laws list_sets_laws live_laws
          (memory_laws.view town)
          (str "a" ∷ [])
          (str "New"))
        (live_laws.there town (str "New"))
        (ignored live list_sets_laws (str "New")
          || not (live_laws.listed (begun live turn town) (str "New")))
sync_once-makes_example =
    sync_once-makes live memory_laws live_laws list_sets_laws 5 turn live_turn_laws town
      (str "a" ∷ []) (str "New") new_given first_message_runs turn_names turn_runs
