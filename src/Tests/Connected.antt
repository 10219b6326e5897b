-- ===== src/Tests/Connected.antt =====
-- The client over the handlers: a transport in memory, and histories of the store.
use role_srv.Base.{
  [], ◌∷◌, Str, str, ◌=?◌, ◌≡◌, refl, true, false, lookup, Exec, raise, pure, if◌then◌else◌,
}
use role_srv.Proto.{SyncRequest}
use role_srv.Strconv.{parse_bool}
use role_srv.Services.{Services}
use role_srv.Handler.Keys.{role_key, members_key}
use role_srv.Client.Services.{RolesService}
use role_srv.Client.Sigs.{sig_action}
use role_srv.Client.Guarded.{Front, client, allows, sig_action-refuses}
use role_srv.Stub.{
  Request, role_request, update_info_request, filter_request, members_request, sync_request,
  role_membership_request, list_user_roles_request, get_discord_user_request, Out, Value, nil_out,
  role_out, roles_out, string_list_out, role_membership_out, list_user_roles_out, member_list_out,
  filter_list_out, discord_user_out, discord_users_out, Transport, service_name, new_roles_service,
  register_roles_handler,
}
use role_srv.Stub.Served.{roles_handler, Delivers}
use role_srv.Tests.Memory.Store.{Memory, hash_value}
use role_srv.Tests.Memory.Laws.{memory_laws}
use role_srv.Tests.Memory.Sets.{services, list_sets}

abbrev pub S : Services
S = services [] []

pub unknown : {A : Type 0} → Exec Memory A
unknown = raise (str "not found")

-- A server that looks at the endpoint and at the kind of the request.
abbrev pub serve : RolesService Memory → (o : Out) → Str → Request → Exec Memory (Value o)
serve h nil_out e (role_request r) =
    if e =? str "Roles.AddRole"
    then h.add_role r
    else if e =? str "Roles.RemoveRole"
    then h.remove_role r
    else unknown
serve h nil_out e (update_info_request r) =
    if e =? str "Roles.UpdateRole" then h.update_role r else unknown
serve h nil_out e (filter_request r) =
    if e =? str "Roles.AddFilter"
    then h.add_filter r
    else if e =? str "Roles.RemoveFilter"
    then h.remove_filter r
    else unknown
serve h nil_out e (members_request r) =
    if e =? str "Roles.AddMembers"
    then h.add_members r
    else if e =? str "Roles.RemoveMembers"
    then h.remove_members r
    else unknown
serve h nil_out e (sync_request r) =
    if e =? str "Roles.SyncToChatService" then h.sync_to_chat_service r else unknown
serve h nil_out e _ = unknown
serve h role_out e (role_request r) = if e =? str "Roles.GetRole" then h.get_role r else unknown
serve h role_out e _ = unknown
serve h roles_out e q = if e =? str "Roles.GetRoles" then h.get_roles else unknown
serve h string_list_out e q =
    if e =? str "Roles.GetRoleKeys"
    then h.get_role_keys
    else if e =? str "Roles.GetRoleTypes"
    then h.get_role_types
    else unknown
serve h role_membership_out e (role_membership_request r) =
    if e =? str "Roles.GetRoleMembership" then h.get_role_membership r else unknown
serve h role_membership_out e _ = unknown
serve h list_user_roles_out e (list_user_roles_request r) =
    if e =? str "Roles.ListUserRoles" then h.list_user_roles r else unknown
serve h list_user_roles_out e _ = unknown
serve h member_list_out e (filter_request r) =
    if e =? str "Roles.GetMembers" then h.get_members r.name else unknown
serve h member_list_out e _ = unknown
serve h filter_list_out e q = if e =? str "Roles.GetFilters" then h.get_filters else unknown
serve h discord_user_out e (get_discord_user_request r) =
    if e =? str "Roles.GetDiscordUser" then h.get_discord_user r else unknown
serve h discord_user_out e _ = unknown
serve h discord_users_out e q =
    if e =? str "Roles.GetDiscordUserList" then h.get_discord_user_list else unknown

abbrev pub transport : RolesService Memory → Transport Memory
transport h = record { call = λ o name e q. serve h o e q }

pub delivers : (name : Str) (h : RolesService Memory) → Delivers (transport h) name h
unfolding str ◌=?◌
delivers name h = record {
  add_role = λ r. refl;
  update_role = λ r. refl;
  remove_role = λ r. refl;
  get_roles = refl;
  get_role = λ r. refl;
  get_role_keys = refl;
  get_role_types = refl;
  get_role_membership = λ r. refl;
  list_user_roles = λ r. refl;
  get_filters = refl;
  add_filter = λ r. refl;
  remove_filter = λ r. refl;
  get_members = λ r. refl;
  add_members = λ r. refl;
  remove_members = λ r. refl;
  sync_to_chat_service = λ r. refl;
  get_discord_user = λ r. refl;
  get_discord_user_list = refl;
}

abbrev pub send : SyncRequest → Exec Memory (Unit {0})
send r = pure tt

abbrev pub connected : Transport Memory
connected = transport (register_roles_handler (roles_handler S send))

-- A store with a SIG that is not joinable.
abbrev closed : Memory
closed = record {
  db =
      (role_key S (str "sig"), hash_value ((str "Sig", str "1") ∷ (str "Joinable", str "0") ∷ []))
      ∷ [];
  guild = [];
  users = [];
  edits = [];
}

abbrev pub front : Front Memory
front = record {
  can_perform = λ sender. pure true;
  sets = list_sets;
  send_success = λ s. s;
  send_error = λ s. s;
  send_fatal = λ s. s;
  order = λ ks. ks;
  now = λ w. 0;
  show_duration = λ n. [];
}

not_allowed : allows S memory_laws closed (str "sig") true ≡ false
unfolding lookup str ◌=?◌ parse_bool
not_allowed = refl

sig_action-refuses_example :
    memory_laws.view
      (sig_action
        (client S front (new_roles_service connected []))
        (str "c:1")
        (str "sig")
        true
        true
        closed).1
      (members_key S (str "b"))
    ≡ memory_laws.view closed (members_key S (str "b"))
sig_action-refuses_example =
    sig_action-refuses S memory_laws front send connected [] (str "c:1") (str "sig") true true
      closed (members_key S (str "b"))
      (delivers (service_name []) (register_roles_handler (roles_handler S send))) not_allowed
