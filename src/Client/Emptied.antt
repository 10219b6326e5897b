-- ===== src/Client/Emptied.antt =====
-- RemoveAllMembers of client/filters.go over the handlers.
use role_srv.Base.{
  ℕ, suc, false, Bool, ◌≡◌, ◌∙◌, refl, sym, ap, subst, arith, not, ◌&&◌, List, Str, Exec, ok,
  ok-bind, contains, is_empty,
}
use role_srv.Proto.{Members, SyncRequest, zero_role}
use role_srv.Redis.{RedisLaws, has}
use role_srv.Redis.Frames.{Holds}
use role_srv.Services.{Services}
use role_srv.Handler.Keys.{description_key, members_key}
use role_srv.Handler.Filters.{get_members, remove_members}
use role_srv.Handler.Filters.Change.{
  AllReply, before_loop, get_members-lists, remove_members-removes,
}
use role_srv.Handler.Reads.{reads_frame}
use role_srv.Client.Services.{ClientServices}
use role_srv.Client.Services.Keeping.{sync_after-Keeps}
use role_srv.Client.Filters.{remove_all_members}
use role_srv.Client.Guarded.{Front, client}
use role_srv.Stub.{Transport, service_name, new_roles_service, register_roles_handler}
use role_srv.Stub.Served.{roles_handler, Delivers, new_roles_service-roles_handler}

-- What is left of the members that were not listed.
without :
    (listed : List Str) (before now : Bool) (user : Str)
    → contains listed user ≡ (not (is_empty user) && before)
    → now ≡ before
    → (not (contains listed user) && now) ≡ (is_empty user && before)
without listed before now user h e = ground arith

module _ (S : Services) (L : RedisLaws S.redis) where
  -- GetMembers is answered, the filter is there, and every SREM of the request replies.
  pub record Answered (filter : Str) (w : S.World) : Type 0 where
    pub listed : List Str
    pub asked : (get_members S filter w).0 ≡ ok listed
    pub count : ℕ
    pub there :
        (S.redis.exists (description_key S filter) (get_members S filter w).1).0 ≡ ok (suc count)
    pub removed :
        AllReply S L S.redis.s_rem
          (members_key S filter)
          listed
          (before_loop S L (record { name = listed; filter = filter }) (get_members S filter w).1)

  module _ (F : Front S.World) (send : SyncRequest → Exec S.World (Unit {0})) where
    abbrev C : ClientServices
    C = client S F (roles_handler S send)

    remove_all_members-empties_store :
        (filter sender : Str) (w : S.World) (user : Str)
        → Answered filter w
        → ((r : SyncRequest) (v : S.World)
            → L.view (send r v).1 (members_key S filter) ≡ L.view v (members_key S filter))
        → has (L.view (remove_all_members C filter sender w).1 (members_key S filter)) user
          ≡ (is_empty user && has (L.view w (members_key S filter)) user)
    unfolding remove_all_members roles_handler
    remove_all_members-empties_store filter sender w user a apart =
        let k = members_key S filter in
        let m : Members = record { name = a.listed; filter = filter } in
        let w1 = (get_members S filter w).1 in
        let (done, left) = remove_members-removes S L m w1 a.count a.there a.removed in
        let w2 = (remove_members S m w1).1 in
        let rest =
          (sync_after-Keeps C (Holds S.redis L k (L.view w2 k))
              (λ r. record { at = λ v h. record { at = apart r v ∙ h.at } }) sender false).at
            w2 (record { at = refl }) in
        let run =
          ok-bind (get_members S filter) _ w a.listed a.asked
          ∙ ok-bind (remove_members S m) _ w1 tt done in
        ap (λ r. has (L.view r.1 k) user) run
        ∙ ap (λ e. has e user) rest.at
        ∙ left user
        ∙ without a.listed _ _ user (get_members-lists S L filter user w a.listed a.asked)
            (ap (λ e. has e user) (reads_frame S L zero_role filter w k).5)

  -- RemoveAllMembers of a client that is connected by its stub takes every member out of the filter
  -- but the empty user, which stays if it was there: GetMembers must be answered, the filter be
  -- there, and every SREM reply. The send to the channel is taken to leave the members alone.
  pub remove_all_members-empties :
      (F : Front S.World) (send : SyncRequest → Exec S.World (Unit {0})) (T : Transport S.World)
      (name filter sender : Str) (w : S.World) (user : Str)
      → Delivers T (service_name name) (register_roles_handler (roles_handler S send))
      → Answered filter w
      → ((r : SyncRequest) (v : S.World)
          → L.view (send r v).1 (members_key S filter) ≡ L.view v (members_key S filter))
      → has
          (L.view
            (remove_all_members (client S F (new_roles_service T name)) filter sender w).1
            (members_key S filter))
          user
        ≡ (is_empty user && has (L.view w (members_key S filter)) user)
  remove_all_members-empties F send T name filter sender w user d a apart =
      subst
        (λ r.
          has (L.view (remove_all_members (client S F r) filter sender w).1 (members_key S filter))
            user
          ≡ (is_empty user && has (L.view w (members_key S filter)) user))
        (sym (new_roles_service-roles_handler S send T name d))
        (remove_all_members-empties_store F send filter sender w user a apart)
