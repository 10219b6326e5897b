-- ===== src/Tests/Syncs.antt =====
-- The queue, and synchronisations of members over a Discord server in memory.
use role_srv.Base.{
  [], ◌∷◌, Str, str, ◌=?◌, ◌≡◌, refl, ok, lookup, contains, is_empty, true, false, some, none, ◌≢◌,
  arith, Option, Bool, is_ok, or_empty, ◌∙◌,
}
use role_srv.Handler.Keys.{role_key}
use role_srv.Redis.{present, has, field, members}
use role_srv.Gateway.{Member}
use role_srv.Base.Text.Split.{Lacks}
use role_srv.Handler.Roles.{role_names}
use role_srv.Proto.{DiscordUser}
use role_srv.Handler.Users.{listed_user, get_discord_user, get_discord_user_list}
use role_srv.Handler.Users.Found.{first_user, nameless, get_discord_user-first}
use role_srv.Handler.Setup.{update_schema, default_sync}
use role_srv.Handler.Setup.Filled as Filled
use role_srv.Handler.Setup.Filled.{HasSync, update_schema-fills}
use role_srv.Tests.Data.{machine}
use role_srv.Handler.Setup.Schema.{update_schema-keeps_settled}
use role_srv.Handler.Sync.Members.Update.{apply_updates}
use role_srv.Handler.Sync.Members.Run.{sync_members}
use role_srv.Handler.Sync.Members.Pages.{sync_members_ends}
use role_srv.Handler.Sync.Members.Spared.{apply_updates-spares}
use role_srv.Tests.Memory.Store.{
  Memory, Value, text_value, hash_value, set_value, entry, set_of, or_wrong,
}
use role_srv.Tests.Memory.Laws.{memory_laws}
use role_srv.Tests.Memory.Guild.{live, live_paging, live_updates}

-- A server with a member that is not to be synchronised.
abbrev owner : Member
owner = record {
  nick = [];
  user = record {
    id = str "1";
    email = [];
    username = str "Boss";
    avatar = [];
    discriminator = [];
    verified = true;
    mfa_enabled = true;
    bot = false;
  };
  roles = record { id = str "2"; name = str "Boss" } ∷ [];
}

abbrev no_sync : Str
no_sync = live.redis.key_name (str "members:no_sync")

abbrev owned : Memory
owned = record {
  db = (no_sync, set_value (str "1" ∷ [])) ∷ [];
  guild = [];
  users = owner ∷ [];
  edits = [];
}

sync_members_ends_example : (sync_members live 2 (str "c") true owned).0 ≢ ok none
sync_members_ends_example = sync_members_ends live live_paging (str "c") true 2 owned (omega arith)

owner_listed : has (memory_laws.view owned no_sync) (str "1") ≡ true
unfolding str ◌=?◌ lookup contains
owner_listed = refl

-- A read of a set gets a reply.
set_replies :
    (o : Option Value) (x : Str) (f : Str → Bool)
    → entry o ≡ members f
    → is_ok (or_wrong (set_of o) (λ xs. contains xs x)) ≡ true
set_replies none x f e = cc
set_replies (some (text_value s)) x f e = cc
set_replies (some (hash_value d)) x f e = cc
set_replies (some (set_value xs)) x f e = refl

owned_list : memory_laws.view owned no_sync ≡ members (contains (str "1" ∷ []))
unfolding str ◌=?◌ lookup
owned_list = refl

apply_updates-spares_example :
    live_updates.has_role
      (apply_updates live (str "c") ((str "1", str "42" ∷ []) ∷ []) owned).1
      (str "1")
      (str "2")
    ≡ live_updates.has_role owned (str "1") (str "2")
apply_updates-spares_example =
    apply_updates-spares live memory_laws live_updates (str "1") (str "2") (str "c")
      ((str "1", str "42" ∷ []) ∷ []) owned owner_listed
      (λ v e. set_replies (lookup no_sync v.db) (str "1") _ (e ∙ owned_list))

abbrev unset : Memory
unset = record {
  db =
      (role_key live (str "a"), hash_value ((str "Name", str "New") ∷ []))
      ∷ (role_key live (str "b"), hash_value ((str "Sync", str "0") ∷ []))
      ∷ [];
  guild = [];
  users = [];
  edits = [];
}

off_is_set :
    is_empty (or_empty (field (memory_laws.view unset (role_key live (str "b"))) (str "Sync")))
    ≡ false
unfolding str ◌=?◌ lookup
off_is_set = refl

update_schema-keeps_settled_example :
    memory_laws.view (update_schema live unset).1 (role_key live (str "b"))
    ≡ memory_laws.view unset (role_key live (str "b"))
update_schema-keeps_settled_example =
    update_schema-keeps_settled live memory_laws (role_key live (str "b")) unset (λ n e. off_is_set)

unset_names : (role_names live unset).0 ≡ ok (str "a" ∷ str "b" ∷ [])
unfolding machine
unset_names = refl

unset_replies : Filled.AllReply live memory_laws (str "a" ∷ str "b" ∷ []) (role_names live unset).1
unfolding machine default_sync
unset_replies = (refl, refl, (refl, refl, tt))

a_plain : Lacks b':' (str "a")
unfolding str
a_plain = (refl, tt)

a_there : present (memory_laws.view unset (role_key live (str "a"))) ≡ true
unfolding machine
a_there = refl

update_schema-fills_example : HasSync live memory_laws (update_schema live unset).1 (str "a")
update_schema-fills_example =
    update_schema-fills live memory_laws unset (str "a" ∷ str "b" ∷ []) (str "a") unset_names
      unset_replies a_plain a_there

-- The list of users of a server with one member.
abbrev boss : DiscordUser
boss = record {
  id = str "1";
  username = str "Boss";
  discriminator = [];
  avatar = [];
  bot = false;
  mfa_enabled = true;
  verified = true;
  email = [];
  nick = [];
}

boss_listed : (get_discord_user_list live owned).0 ≡ ok (boss ∷ [])
unfolding machine get_discord_user_list listed_user
boss_listed = refl

get_discord_user-first_example :
    get_discord_user live (str "1") owned
    ≡ (nameless (first_user (str "1") (boss ∷ [])), (get_discord_user_list live owned).1)
get_discord_user-first_example = get_discord_user-first live (str "1") owned (boss ∷ []) boss_listed
