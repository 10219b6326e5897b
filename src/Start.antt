-- ===== src/Start.antt =====
-- initialize of main.go: the handler is made and registered with the server. The rest of main.go
-- wires the micro service, the logger and a listener for profiles.
use role_srv.Base.{◌≡◌, Str, Exec, ok, pure, ◌>>◌, Ensures, >>=-Ensures, Ensures-pure, refl, subst}
use role_srv.Proto.{SyncRequest}
use role_srv.Services.{Services}
use role_srv.Handler.Setup.{new_roles_handler}
use role_srv.Client.Services.{RolesService}
use role_srv.Stub.{Transport, service_name, new_roles_service, register_roles_handler}
use role_srv.Stub.Served.{Delivers, roles_handler, new_roles_service-roles_handler}

-- The reply is what the server has registered: NewRolesHandler runs first.
unfoldable pub initialize :
    (S : Services) → (SyncRequest → Exec S.World (Unit {0})) → Exec S.World (RolesService S.World)
initialize S send = do new_roles_handler S; pure (register_roles_handler (roles_handler S send))

initialize-Registers :
    (S : Services) (send : SyncRequest → Exec S.World (Unit {0})) (w : S.World)
    → Ensures (initialize S send) w (λ H _. H ≡ register_roles_handler (roles_handler S send))
unfolding initialize
initialize-Registers S send w = >>=-Ensures _ _ λ _ _. Ensures-pure _ refl

-- A service that has started serves the handler's methods to every client whose requests are
-- delivered to what it registered.
initialize-serves :
    (S : Services) (send : SyncRequest → Exec S.World (Unit {0})) (T : Transport S.World)
    (name : Str) (w : S.World) (H : RolesService S.World)
    → (initialize S send w).0 ≡ ok H
    → Delivers T (service_name name) H
    → new_roles_service T name ≡ roles_handler S send
initialize-serves S send T name w H started d =
    new_roles_service-roles_handler S send T name
      (subst (Delivers T (service_name name)) ((initialize-Registers S send w).holds H started) d)
