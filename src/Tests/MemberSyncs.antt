-- ===== src/Tests/MemberSyncs.antt =====
-- Synchronisations of members over a Discord server in memory.
use role_srv.Base.{
  [], ◌∷◌, Str, str, ◌=?◌, ◌≡◌, refl, ok, lookup, insert, at, ◌>>=◌, contains, keys, split,
  last_part, for_each, fold_each, is_empty, true, false, some, inl, inr,
}
use role_srv.Strconv.{parse_int, parse_uint, format_int}
use role_srv.Gateway.{Member}
use role_srv.Handler.Keys.{role_key, members_key, description_key}
use role_srv.Handler.Roles.{role_names, role_name, find_role}
use role_srv.Handler.Membership.{role_membership, filters_membership, single_filter}
use role_srv.Handler.Sync.Report.{reporting, report, send_message, send_dual_message}
use role_srv.Handler.Sync.Members.Gather.{
  gather_member, gather_page, gather_pages, gather_role, give_role, add_names, ensure, later_id,
  role_name_map,
}
use role_srv.Handler.Sync.Members.Update.{
  update_members, plan_updates, update_user, add_ids, differ, ignore_role, apply_updates,
  update_one,
}
use role_srv.Handler.Sync.Members.Run.{sync_members, sync_gathered, send_since, since}
use role_srv.Handler.Sync.Members.Granted.{grants_by}
use role_srv.Handler.Sync.Members.Trace.{IsOpen}
use role_srv.Handler.Sync.Members.Effect.{Exactly, IsGranted, Mismatch, missing, sync_members-gives}
use role_srv.Handler.Sync.Members.Kept.{no_role, sync_members-keeps}
use role_srv.Tests.Memory.Store.{
  Memory, text_value, hash_value, set_value, matching, drop_last, common,
}
use role_srv.Tests.Memory.Laws.{memory_laws}
use role_srv.Tests.Memory.Sets.{list_sets_laws, add_once, minus, add_all}
use role_srv.Tests.Memory.Guild.{live, live_updates, later, set_roles, put_roles}
use role_srv.Tests.Memory.Server.{live_server, live_server_laws}

-- The server's one member, with a role that nobody grants.
abbrev ann : Member
ann = record {
  nick = [];
  user = record {
    id = str "7";
    email = [];
    username = str "Ann";
    avatar = [];
    discriminator = [];
    verified = true;
    mfa_enabled = true;
    bot = false;
  };
  roles = record { id = str "9"; name = str "Old" } ∷ [];
}

abbrev port : Memory
port = record {
  db =
      (
        role_key live (str "a"),
        hash_value (
            (str "Name", str "New")
            ∷ (str "Sync", str "1")
            ∷ (str "FilterA", str "corp")
            ∷ (str "FilterB", str "wildcard")
            ∷ []),
      )
      ∷ (description_key live (str "corp"), text_value (str "The corporation"))
      ∷ (members_key live (str "corp"), set_value (str "7" ∷ []))
      ∷ [];
  guild =
      record { id = str "42"; name = str "New" } ∷ record { id = str "9"; name = str "Old" } ∷ [];
  users = ann ∷ [];
  edits = [];
}

-- Opening this opens what the runs below compute with.
machine : Unit {0}
unfolding sync_members sync_gathered send_since since send_dual_message send_message reporting
    report gather_member gather_page gather_pages gather_role give_role add_names ensure later_id
    role_name_map update_members plan_updates update_user add_ids differ ignore_role apply_updates
    update_one role_names role_name find_role role_membership filters_membership single_filter
    parse_int parse_uint format_int at ◌>>=◌ for_each fold_each str contains ◌=?◌ lookup insert keys
    split last_part matching drop_last common add_once minus add_all later set_roles put_roles
machine = tt

port_runs : (sync_members live 3 (str "c") true port).0 ≡ ok (some tt)
unfolding machine
port_runs = refl

ann_gets_new :
    live_updates.has_role (sync_members live 3 (str "c") true port).1 (str "7") (str "42") ≡ true
unfolding machine
ann_gets_new = refl

ann_open : IsOpen live memory_laws list_sets_laws live_server live_server_laws port ann
unfolding machine
ann_open = record {
  among = inl refl;
  only = λ p h e. elim h [ inl q ↦ cc | inr q ↦ absurd q ];
  positive = refl;
  unlisted = refl;
  updates = λ ids v. refl;
}

new-IsGranted :
    IsGranted live memory_laws list_sets_laws live_server live_server_laws port ann (str "New")
unfolding machine
new-IsGranted = (str "a", (refl, tt), refl)

new_missing : Mismatch live memory_laws list_sets_laws live_server live_server_laws port ann
unfolding str ◌=?◌
new_missing = missing (str "New") new-IsGranted refl

ann_allowed : ignore_role live (str "Ann") ≡ false
unfolding machine
ann_allowed = refl

id_given : is_empty (str "42") ≡ false
unfolding str
id_given = refl

sync_members-gives_example :
    Exactly live memory_laws list_sets_laws live_server live_server_laws port ann
      (str "42")
      (live_updates.has_role (sync_members live 3 (str "c") true port).1 (str "7") (str "42"))
sync_members-gives_example =
    sync_members-gives live memory_laws list_sets_laws live_server live_server_laws port ann
      (λ ks k. refl) ann_open (str "c") true 3 port_runs (str "42") ann_allowed (str "New")
      new-IsGranted new_missing id_given

-- The same server over a store without roles.
abbrev bare : Memory
bare = record port { db = [] }

bare_runs : (sync_members live 3 (str "c") true bare).0 ≡ ok (some tt)
unfolding machine
bare_runs = refl

ann_open_bare : IsOpen live memory_laws list_sets_laws live_server live_server_laws bare ann
unfolding machine
ann_open_bare = record {
  among = inl refl;
  only = λ p h e. elim h [ inl q ↦ cc | inr q ↦ absurd q ];
  positive = refl;
  unlisted = refl;
  updates = λ ids v. refl;
}

nothing_granted : (y n : Str) → grants_by live (memory_laws.view bare) (str "7") y n ≡ false
unfolding machine
nothing_granted y n = refl

sync_members-keeps_example :
    live_updates.has_role (sync_members live 3 (str "c") true bare).1 (str "7") (str "9")
    ≡ live_updates.has_role bare (str "7") (str "9")
sync_members-keeps_example =
    sync_members-keeps live memory_laws list_sets_laws live_server live_server_laws bare ann
      (λ ks k. refl) ann_open_bare (str "c") true 3 (str "9") (no_role nothing_granted) bare_runs
