-- ===== src/Stub/Served.antt =====
-- The stub over a transport that delivers each request to the handler of its endpoint.
use role_srv.Base.{◌≡◌, [], Str, str, Exec}
use role_srv.Proto.{Role, UpdateInfo, Filter, Members, SyncRequest}
use role_srv.Services.{Services}
use role_srv.Handler.Roles
use role_srv.Handler.Membership
use role_srv.Handler.Filters
use role_srv.Handler.Users
use role_srv.Client.Services.{RolesService}
use role_srv.Stub.{
  nil_request, role_request, update_info_request, filter_request, members_request, sync_request,
  role_membership_request, list_user_roles_request, get_discord_user_request, nil_out, role_out,
  roles_out, string_list_out, role_membership_out, list_user_roles_out, member_list_out,
  filter_list_out, discord_user_out, discord_users_out, Transport, service_name, new_roles_service,
  register_roles_handler,
}

-- The methods of rolesHandler in handler/Roles.go. A send to the channel is a parameter.
unfoldable pub roles_handler :
    (S : Services) → (SyncRequest → Exec S.World (Unit {0})) → RolesService S.World
roles_handler S send = record {
  add_role = Roles.add_role S;
  update_role = Roles.update_role S;
  remove_role = Roles.remove_role S;
  get_roles = Roles.get_roles S;
  get_role = Roles.get_role S;
  get_role_keys = Roles.get_role_keys S;
  get_role_types = Roles.get_role_types S;
  get_role_membership = Membership.get_role_membership S;
  list_user_roles = Membership.list_user_roles S;
  get_filters = Filters.get_filters S;
  add_filter = Filters.add_filter S;
  remove_filter = Filters.remove_filter S;
  get_members = Filters.get_members S;
  add_members = Filters.add_members S;
  remove_members = Filters.remove_members S;
  sync_to_chat_service = send;
  get_discord_user = Users.get_discord_user S;
  get_discord_user_list = Users.get_discord_user_list S;
}

-- The server and the transport of go-micro: a request to the endpoint `Roles.M` of the service is
-- answered by the method `M` of the registered handler.
pub record Delivers {W : Type 0} (T : Transport W) (name : Str) (H : RolesService W) : Type 0 where
  pub add_role :
      (r : Role) → T.call nil_out name (str "Roles.AddRole") (role_request r) ≡ H.add_role r
  pub update_role :
      (r : UpdateInfo)
      → T.call nil_out name (str "Roles.UpdateRole") (update_info_request r) ≡ H.update_role r
  pub remove_role :
      (r : Role) → T.call nil_out name (str "Roles.RemoveRole") (role_request r) ≡ H.remove_role r
  pub get_roles : T.call roles_out name (str "Roles.GetRoles") nil_request ≡ H.get_roles
  pub get_role :
      (r : Role) → T.call role_out name (str "Roles.GetRole") (role_request r) ≡ H.get_role r
  pub get_role_keys :
      T.call string_list_out name (str "Roles.GetRoleKeys") nil_request ≡ H.get_role_keys
  pub get_role_types :
      T.call string_list_out name (str "Roles.GetRoleTypes") nil_request ≡ H.get_role_types
  pub get_role_membership :
      (r : Str)
      → T.call role_membership_out name (str "Roles.GetRoleMembership") (role_membership_request r)
        ≡ H.get_role_membership r
  pub list_user_roles :
      (r : Str)
      → T.call list_user_roles_out name (str "Roles.ListUserRoles") (list_user_roles_request r)
        ≡ H.list_user_roles r
  pub get_filters : T.call filter_list_out name (str "Roles.GetFilters") nil_request ≡ H.get_filters
  pub add_filter :
      (r : Filter) → T.call nil_out name (str "Roles.AddFilter") (filter_request r) ≡ H.add_filter r
  pub remove_filter :
      (r : Filter)
      → T.call nil_out name (str "Roles.RemoveFilter") (filter_request r) ≡ H.remove_filter r
  pub get_members :
      (f : Str)
      → T.call member_list_out name
          (str "Roles.GetMembers")
          (filter_request (record { name = f; description = [] }))
        ≡ H.get_members f
  pub add_members :
      (r : Members)
      → T.call nil_out name (str "Roles.AddMembers") (members_request r) ≡ H.add_members r
  pub remove_members :
      (r : Members)
      → T.call nil_out name (str "Roles.RemoveMembers") (members_request r) ≡ H.remove_members r
  pub sync_to_chat_service :
      (r : SyncRequest)
      → T.call nil_out name (str "Roles.SyncToChatService") (sync_request r)
        ≡ H.sync_to_chat_service r
  pub get_discord_user :
      (r : Str)
      → T.call discord_user_out name (str "Roles.GetDiscordUser") (get_discord_user_request r)
        ≡ H.get_discord_user r
  pub get_discord_user_list :
      T.call discord_users_out name (str "Roles.GetDiscordUserList") nil_request
      ≡ H.get_discord_user_list

-- If the transport delivers every request to the endpoint that is registered under its name, then
-- the stub is the handler: every call of the client reaches the handler's method of the same name
-- with the same request, and its reply comes back.
pub new_roles_service-roles_handler :
    (S : Services) (send : SyncRequest → Exec S.World (Unit {0})) (T : Transport S.World)
    (name : Str)
    → Delivers T (service_name name) (register_roles_handler (roles_handler S send))
    → new_roles_service T name ≡ roles_handler S send
unfolding new_roles_service register_roles_handler roles_handler
new_roles_service-roles_handler S send T name d = λ i. record {
  add_role = λ r. d.add_role r i;
  update_role = λ r. d.update_role r i;
  remove_role = λ r. d.remove_role r i;
  get_roles = d.get_roles i;
  get_role = λ r. d.get_role r i;
  get_role_keys = d.get_role_keys i;
  get_role_types = d.get_role_types i;
  get_role_membership = λ r. d.get_role_membership r i;
  list_user_roles = λ r. d.list_user_roles r i;
  get_filters = d.get_filters i;
  add_filter = λ r. d.add_filter r i;
  remove_filter = λ r. d.remove_filter r i;
  get_members = λ r. d.get_members r i;
  add_members = λ r. d.add_members r i;
  remove_members = λ r. d.remove_members r i;
  sync_to_chat_service = λ r. d.sync_to_chat_service r i;
  get_discord_user = λ r. d.get_discord_user r i;
  get_discord_user_list = d.get_discord_user_list i;
}
