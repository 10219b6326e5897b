-- ===== src/Tests/Parts.antt =====
-- The synchronisation, the commands and the library parts on concrete data.
use role_srv.Base.{
  Str, ◌↔◌, [], ◌∷◌, ◌++◌, str, ◌=?◌, ◌≡◌, refl, arith, true, false, ok, panic, pure,
}
use role_srv.Base.Text.Split.{Lacks}
use role_srv.Services.{Services}
use role_srv.Handler.Roles
use role_srv.Handler.Membership
use role_srv.Handler.Filters
use role_srv.Handler.Users
use role_srv.Handler.Sync.Roles.{match_discord_error}
use role_srv.Handler.Sync.Roles.Matches.{SaysExists, match_discord_error-decides}
use role_srv.Client.Services.{ClientServices, RolesService, get_sync_request}
use role_srv.Client.Names.{Mapped, map_members}
use role_srv.Client.Names.Mapping.{map_members-drops}
use role_srv.Client.Denied.{denied_commands, refused, get_sync_request_lem}
use role_srv.Client.Roles as Commands
use role_srv.Client.Roles.{unknown_key}
use role_srv.Client.Filters as FilterCommands
use role_srv.Tests.Memory.Store.{Memory}
use role_srv.Tests.Memory.Sets.{services, list_sets}

abbrev S : Services
S = services [] []

abbrev empty : Memory
empty = record { db = []; guild = []; users = []; edits = [] }

-- Two answers of Discord to the creation of a role.
abbrev there_already : Str
there_already = str "The role 'Pilots' already exists"

answers_told_apart :
    (match_discord_error there_already ≡ true)
    × (match_discord_error (str "The role limit is reached") ≡ false)
unfolding match_discord_error str ◌=?◌
answers_told_apart = (refl, refl)

match_discord_error-decides_example :
    (match_discord_error there_already ≡ true) ↔ SaysExists there_already
match_discord_error-decides_example = match_discord_error-decides there_already

-- The commands over the handlers.
abbrev server : RolesService Memory
server = record {
  add_role = Roles.add_role S;
  update_role = Roles.update_role S;
  remove_role = Roles.remove_role S;
  get_roles = Roles.get_roles S;
  get_role = Roles.get_role S;
  get_role_keys = Roles.get_role_keys S;
  get_role_types = Roles.get_role_types S;
  get_role_membership = Membership.get_role_membership S;
  list_user_roles = Membership.list_user_roles S;
  get_filters = Filters.get_filters S;
  add_filter = Filters.add_filter S;
  remove_filter = Filters.remove_filter S;
  get_members = Filters.get_members S;
  add_members = Filters.add_members S;
  remove_members = Filters.remove_members S;
  sync_to_chat_service = λ r. pure tt;
  get_discord_user = Users.get_discord_user S;
  get_discord_user_list = Users.get_discord_user_list S;
}

abbrev C : ClientServices
C = record {
  World = Memory;
  roles = server;
  can_perform = λ sender w. (ok (sender =? str "c:1"), w);
  sets = list_sets;
  send_success = λ s. s;
  send_error = λ s. str "error " ++ s;
  send_fatal = λ s. str "fatal " ++ s;
  order = λ ks. ks;
  now = λ w. 0;
  show_duration = λ n. str "0s";
}

stranger : (C.can_perform (str "c:2") empty).0 ≡ ok false
unfolding str ◌=?◌
stranger = refl

denied_commands_example :
    let sender = str "c:2" in
    (Commands.add_role C sender
        (str "a")
        (str "internal")
        (str "f")
        (str "g")
        true
        (str "A")
        false
        empty
      ≡ refused C sender empty)
    × (Commands.remove_role C sender (str "a") false empty ≡ refused C sender empty)
    × (Commands.role_info C sender (str "a") false empty ≡ refused C sender empty)
    × (FilterCommands.add_filter C sender (str "a") (str "internal") empty ≡ refused C sender empty)
    × (FilterCommands.remove_filter C sender (str "a") empty ≡ refused C sender empty)
    × (FilterCommands.add_member C sender (str "a") (str "internal") empty ≡ refused C sender empty)
    × (FilterCommands.remove_member C sender (str "a") (str "internal") empty
        ≡ refused C sender empty)
denied_commands_example =
    denied_commands C (str "c:2") (str "a") (str "internal") (str "f") (str "g") (str "A") true
      false empty stranger

no_colon : Lacks b':' (str "12")
unfolding str
no_colon = ground arith

get_sync_request_lem_example :
    (get_sync_request (str "12" ++ b':' ∷ str "12") false empty
      ≡ (ok (record { channel_id = str "12"; user_id = str "12"; send_message = false }), empty))
    × (get_sync_request (str "12") false empty ≡ (panic, empty))
get_sync_request_lem_example =
    get_sync_request_lem (str "12") (str "12") false empty no_colon no_colon

-- After a member that was found, two that Discord does not have.
abbrev mapped : Mapped
mapped = record { buffer = str "Ann"; names = str "Ann" ∷ []; found = true }

map_members-drops_example : map_members [] (str "1" ∷ str "2" ∷ []) mapped ≡ mapped
map_members-drops_example =
    map_members-drops [] (str "1" ∷ str "2" ∷ []) mapped refl (refl, (refl, tt))
