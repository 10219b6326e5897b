-- ===== src/Client/Confined.antt =====
-- The commands on SIGs over the handlers: the one key that they change.
use role_srv.Base.{
  ◌≡◌, ◌≢◌, ◌∙◌, refl, sym, ap, subst, Bool, Str, str, Exec, pure, or_empty, at, Ensures,
  >>=-Ensures, Ensures-pure, Bool-cases, inl, inr, Keeps, Keeps-pure, Keeps-bind, Keeps-if,
}
use role_srv.Proto.{Role, zero_role, SyncRequest}
use role_srv.Redis.{RedisLaws, Entry, field}
use role_srv.Redis.Frames.{Holds}
use role_srv.Services.{Services}
use role_srv.Handler.Keys.{role_key, members_key}
use role_srv.Handler.Roles.{get_role, map_role_to_protobuf_role}
use role_srv.Handler.Roles.Find.{find_role-fields}
use role_srv.Handler.Reads.{get_role-Keeps}
use role_srv.Handler.Writes.{add_members-Keeps, remove_members-Keeps}
use role_srv.Handler.Users.{get_discord_user_list}
use role_srv.Client.Sigs.{sig_action}
use role_srv.Client.Guarded.{Front, client, or_error_at}
use role_srv.Stub.{Transport, service_name, new_roles_service, register_roles_handler}
use role_srv.Stub.Served.{roles_handler, Delivers, new_roles_service-roles_handler}
use role_srv.Client.Sigs.Keeping.{After, Kept, sig_change-Keeps}

module _ (S : Services) (L : RedisLaws S.redis) (j : Str) (e : Entry) where
  get_discord_user_list-Keeps :
      Keeps (Holds S.redis L j e) S.gateway.get_all_members_as_slice
      → Keeps (Holds S.redis L j e) (get_discord_user_list S)
  unfolding get_discord_user_list
  get_discord_user_list-Keeps k = Keeps-bind _ _ k λ ms. Keeps-pure _

module _ (S : Services) (L : RedisLaws S.redis) where
  -- The filter B of a role in the store.
  abbrev pub filter_of : S.World → Str → Str
  filter_of w sig = or_empty (field (L.view w (role_key S sig)) (str "FilterB"))

  pub get_role-filter :
      (sig : Str) (w : S.World)
      → Ensures
          (get_role S (record zero_role { short_name = sig }))
          w
          (λ got _. got.filter_b ≡ filter_of w sig)
  unfolding get_role map_role_to_protobuf_role at
  get_role-filter sig w = >>=-Ensures _ _ λ d found.
      Ensures-pure _ (ap or_empty ((find_role-fields S L sig w).holds d found (str "FilterB")))

  module _ (F : Front S.World) (send : SyncRequest → Exec S.World (Unit {0})) (j : Str) where
    -- Neither the send to the channel nor the gateway touches the key.
    pub record Apart : Type 0 where
      pub send_apart : (r : SyncRequest) (v : S.World) → L.view (send r v).1 j ≡ L.view v j
      pub gateway_apart :
          (v : S.World) → L.view (S.gateway.get_all_members_as_slice v).1 j ≡ L.view v j

    pub handler-After :
        (e : Entry) → Apart → After (client S F (roles_handler S send)) (Holds S.redis L j e)
    unfolding roles_handler
    handler-After e p = record {
      sync = λ r. record { at = λ w h. record { at = p.send_apart r w ∙ h.at } };
      users =
          get_discord_user_list-Keeps S L j e
            (record { at = λ w h. record { at = p.gateway_apart w ∙ h.at } });
    }

    handler-Kept :
        (e : Entry) (filter : Str)
        → Apart
        → j ≢ members_key S filter
        → Kept (client S F (roles_handler S send)) (Holds S.redis L j e) filter
    unfolding roles_handler
    handler-Kept e filter p n = record {
      add = λ x. add_members-Keeps S L j e _ n;
      remove = λ x. remove_members-Keeps S L j e _ n;
      after = handler-After e p;
    }

    sig_action-keeps_others :
        (sender sig : Str) (join joinable : Bool) (w : S.World)
        → Apart
        → j ≢ members_key S (filter_of w sig)
        → L.view (sig_action (client S F (roles_handler S send)) sender sig join joinable w).1 j
          ≡ L.view w j
    unfolding sig_action roles_handler pure
    sig_action-keeps_others sender sig join joinable w p n =
        let C = client S F (roles_handler S send) in
        let H = Holds S.redis L j (L.view w j) in
        let r : Role = record zero_role { short_name = sig } in
        let w1 = (get_role S r w).1 in
        let K = handler-Kept (L.view w j) (filter_of w sig) p n in
        let one : H w1 = (get_role-Keeps S L j (L.view w j) r).at w (record { at = refl }) in
        let two : H (get_role S r w1).1 = (get_role-Keeps S L j (L.view w j) r).at w1 one in
        let all : H (sig_action C sender sig join joinable w).1 =
          or_error_at C H (get_role S r) _ w one λ foo e. elim (Bool-cases foo.sig) [
            | inr no_sig ↦ rw no_sig one
            | inl is_sig ↦ rw is_sig (
                or_error_at C H (get_role S r) _ w1 two λ role f.
                  let same : L.view w1 (role_key S sig) ≡ L.view w (role_key S sig) =
                    ((get_role-Keeps S L _ (L.view w (role_key S sig)) r).at w
                      (record { at = refl })).at in
                  let b : role.filter_b ≡ filter_of w sig =
                    (get_role-filter sig w1).holds role f
                    ∙ ap (λ v. or_empty (field v (str "FilterB"))) same in
                  let rest =
                    Keeps-if _ _ _ (Keeps-pure _)
                      (sig_change-Keeps C H _ K sender sig role join b) in
                  rest.at _ two)
          ] in
        all.at

  -- Whatever a command on a SIG does and replies, through a client that is connected by its stub, it
  -- changes no key of the store but the members of the role's filter B, as the store names it. The
  -- send to the channel and the gateway's list of members are taken to leave the key alone.
  pub sig_action_confined :
      (F : Front S.World) (send : SyncRequest → Exec S.World (Unit {0})) (T : Transport S.World)
      (name sender sig : Str) (join joinable : Bool) (w : S.World) (j : Str)
      → Delivers T (service_name name) (register_roles_handler (roles_handler S send))
      → Apart F send j
      → j ≢ members_key S (filter_of w sig)
      → L.view (sig_action (client S F (new_roles_service T name)) sender sig join joinable w).1 j
        ≡ L.view w j
  sig_action_confined F send T name sender sig join joinable w j d p n =
      subst (λ r. L.view (sig_action (client S F r) sender sig join joinable w).1 j ≡ L.view w j)
        (sym (new_roles_service-roles_handler S send T name d))
        (sig_action-keeps_others F send j sender sig join joinable w p n)
