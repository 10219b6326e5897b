-- ===== src/Stub.antt =====
-- The two ends of the service in proto/roles.micro.go: the stub rolesService, whose calls name their
-- endpoint, and the handler that RegisterRolesHandler gives to the server.
pub mod Served
use role_srv.Base.{List, [], Str, str, is_empty, Exec, if◌then◌else◌}
use role_srv.Proto.{Role, UpdateInfo, Filter, Members, SyncRequest, DiscordUser}
use role_srv.Client.Services.{RolesService}

-- A request. NilMessage has no field; a message with one field is that field.
pub data Request : Type 0 where
  nil_request : Request
  role_request : Role → Request
  update_info_request : UpdateInfo → Request
  filter_request : Filter → Request
  members_request : Members → Request
  sync_request : SyncRequest → Request
  role_membership_request : Str → Request
  list_user_roles_request : Str → Request
  get_discord_user_request : Str → Request

-- What `out` is allocated as: the type of the reply.
pub data Out : Type 0 where
  nil_out : Out
  role_out : Out
  roles_out : Out
  string_list_out : Out
  role_membership_out : Out
  list_user_roles_out : Out
  member_list_out : Out
  filter_list_out : Out
  discord_user_out : Out
  discord_users_out : Out

abbrev pub Value : Out → Type 0
Value nil_out = Unit {0}
Value role_out = Role
Value roles_out = List Role
Value string_list_out = List Str
Value role_membership_out = List Str
Value list_user_roles_out = List Role
Value member_list_out = List Str
Value filter_list_out = List Filter
Value discord_user_out = DiscordUser
Value discord_users_out = List DiscordUser

-- The client of go-micro: `c.Call(ctx, c.NewRequest(service, endpoint, in), out)`.
pub record Transport (World : Type 0) : Type 0 where
  pub call : (o : Out) → Str → Str → Request → Exec World (Value o)

-- The default name of NewRolesService.
abbrev pub service_name : Str → Str
service_name name = if is_empty name then str "chremoas.roles" else name

module _ {World : Type 0} where
  -- The methods of rolesService: an error comes back without the reply.
  abbrev pub stub : Transport World → Str → RolesService World
  stub t name = record {
    add_role = λ r. t.call nil_out name (str "Roles.AddRole") (role_request r);
    update_role = λ r. t.call nil_out name (str "Roles.UpdateRole") (update_info_request r);
    remove_role = λ r. t.call nil_out name (str "Roles.RemoveRole") (role_request r);
    get_roles = t.call roles_out name (str "Roles.GetRoles") nil_request;
    get_role = λ r. t.call role_out name (str "Roles.GetRole") (role_request r);
    get_role_keys = t.call string_list_out name (str "Roles.GetRoleKeys") nil_request;
    get_role_types = t.call string_list_out name (str "Roles.GetRoleTypes") nil_request;
    get_role_membership = λ r.
        t.call role_membership_out name (str "Roles.GetRoleMembership") (role_membership_request r);
    list_user_roles = λ r.
        t.call list_user_roles_out name (str "Roles.ListUserRoles") (list_user_roles_request r);
    get_filters = t.call filter_list_out name (str "Roles.GetFilters") nil_request;
    add_filter = λ r. t.call nil_out name (str "Roles.AddFilter") (filter_request r);
    remove_filter = λ r. t.call nil_out name (str "Roles.RemoveFilter") (filter_request r);
    get_members = λ f.
        t.call member_list_out name (str "Roles.GetMembers")
          (filter_request (record { name = f; description = [] }));
    add_members = λ r. t.call nil_out name (str "Roles.AddMembers") (members_request r);
    remove_members = λ r. t.call nil_out name (str "Roles.RemoveMembers") (members_request r);
    sync_to_chat_service =
        λ r. t.call nil_out name (str "Roles.SyncToChatService") (sync_request r);
    get_discord_user =
        λ r. t.call discord_user_out name (str "Roles.GetDiscordUser") (get_discord_user_request r);
    get_discord_user_list =
        t.call discord_users_out name (str "Roles.GetDiscordUserList") nil_request;
  }

  unfoldable pub new_roles_service : Transport World → Str → RolesService World
  new_roles_service t name = stub t (service_name name)

  -- RegisterRolesHandler: the type `Roles` that the server is given passes each call on.
  unfoldable pub register_roles_handler : RolesService World → RolesService World
  register_roles_handler h = record {
    add_role = λ r. h.add_role r;
    update_role = λ r. h.update_role r;
    remove_role = λ r. h.remove_role r;
    get_roles = h.get_roles;
    get_role = λ r. h.get_role r;
    get_role_keys = h.get_role_keys;
    get_role_types = h.get_role_types;
    get_role_membership = λ r. h.get_role_membership r;
    list_user_roles = λ r. h.list_user_roles r;
    get_filters = h.get_filters;
    add_filter = λ r. h.add_filter r;
    remove_filter = λ r. h.remove_filter r;
    get_members = λ r. h.get_members r;
    add_members = λ r. h.add_members r;
    remove_members = λ r. h.remove_members r;
    sync_to_chat_service = λ r. h.sync_to_chat_service r;
    get_discord_user = λ r. h.get_discord_user r;
    get_discord_user_list = h.get_discord_user_list;
  }
