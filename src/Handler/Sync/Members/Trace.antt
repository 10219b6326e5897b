-- ===== src/Handler/Sync/Members/Trace.antt =====
-- A run of syncMembers that succeeds: what it has collected of a user, and what it leaves.
use role_srv.Base.{
  ℕ, ◌≡◌, ◌∙◌, ap, ap₂, refl, Bool, true, false, List, [], Str, Option, none, some, is_some, Dict,
  lookup, contains, ok, gets, if◌then◌else◌, Ensures, >>=-Ensures, Ensures-pure, Keeps-gets,
}
use role_srv.Base.Text.Split.{Lacks}
use role_srv.Gateway.{Member, DiscordRole}
use role_srv.Redis.{RedisLaws, present, has}
use role_srv.StringSets.{StringSetLaws}
use role_srv.Services.{Services}
use role_srv.Handler.Keys.{role_key}
use role_srv.Handler.Roles.Names.{role_names_complete, role_names-Lacks}
use role_srv.Handler.Sync.Members.Gather.{Gathered, role_name_map, start}
use role_srv.Handler.Sync.Members.Update.{update_members}
use role_srv.Handler.Sync.Members.Given.{MeetsKeys, planned}
use role_srv.Handler.Sync.Members.Pages.{Among, behind}
use role_srv.Handler.Sync.Calls.{
  send_since-Keeps, send_dual_message-Keeps, role_names-Keeps, gather_roles-Keeps,
  gather_pages-Keeps,
}
use role_srv.Handler.Sync.Members.Server.{Server, ServerLaws, Same, Same_refl, Same-Reads}
use role_srv.Handler.Sync.Members.Granted.{Granted, gather_roles-Granted}
use role_srv.Handler.Sync.Members.Everyone.{Found, IsUnique, gather_pages-Found}
use role_srv.Handler.Sync.Members.Applied.{Updates, list_key, apply_updates-Ensures}
use role_srv.Handler.Sync.Members.Quiet.{quiet-bind, read-bind}
use role_srv.Handler.Sync.Members.Run.{sync_members, sync_found, sync_gathered}

module _ (S : Services) (L : RedisLaws S.redis) (T : StringSetLaws S.sets) (D : Server S L)
    (Q : ServerLaws S L D) (w : S.World) (m : Member) where
  open S.sets use {StringSet}

  -- The ids of Discord's roles by their names.
  abbrev pub role_ids : Dict Str
  role_ids = role_name_map (D.roles w) []

  -- What the loops have gathered before the updates.
  pub record Collected (g : Gathered S) (names : List Str) (chremoas : Dict StringSet)
      : Type 0 where
    pub found : Found S L T D Q m g
    pub listed :
        (n : Str)
        → Lacks b':' n
        → present (L.view w (role_key S n)) ≡ true
        → contains names n ≡ true
    pub plain : (n : Str) → contains names n ≡ true → Lacks b':' n
    pub granted : (y : Str) → Granted S L T w m.user.id y names g.chremoas chremoas

  -- The member is one of the server, with a positive id of its own, and not on members:no_sync, and
  -- Discord makes every update of it.
  pub record IsOpen : Type 0 where
    pub among : Among m (D.paging.members w)
    pub only : IsUnique S L T D Q m w
    pub positive : behind [] m ≡ true
    pub unlisted : has (L.view w (list_key S L T D Q m.user.id)) m.user.id ≡ false
    pub updates : Updates S L T D Q m.user.id

  -- Behind the run, in `v`, the member has the role of id `x` as planned, or as before.
  pub record Ran (x : Str) (v : S.World) : Type 0 where
    pub g : Gathered S
    pub names : List Str
    pub chremoas : Dict StringSet
    pub collected : Collected g names chremoas
    pub final :
        let updates = update_members S role_ids g chremoas in
        D.updates.has_role v m.user.id x ≡ (
          if is_some (lookup m.user.id updates)
          then planned S T updates m.user.id x
          else D.updates.has_role w m.user.id x)

  module _ (x channel : Str) (send : Bool) (meets : MeetsKeys S T) (o : IsOpen) where
    sync_gathered-Ran :
        (g : Gathered S) (v : S.World)
        → Same S L D w v
        → Found S L T D Q m g
        → Ensures (sync_gathered S channel send g) v (λ _ u. Ran x u)
    unfolding sync_gathered
    sync_gathered-Ran g v h found =
        let told =
          λ (t : Str) (n : ℕ). send_since-Keeps S _ (Same-Reads S L D Q w) t n channel send in
        let id = m.user.id in
        quiet-bind S L D Q w _ _ _ (Keeps-gets _) h λ t2 _ h.
          read-bind S L D Q w channel _ _ _ _ (Same-Reads S L D Q w).get_all_roles h λ roles got h'.
            let ids : roles ≡ D.roles w = Q.roles_ok _ roles got ∙ h.roles in
            quiet-bind S L D Q w _ _ _ (told _ t2) h' λ _ _ h.
              quiet-bind S L D Q w _ _ _ (Keeps-gets _) h λ t3 _ h.
                read-bind S L D Q w channel _ _ _ _ (role_names-Keeps S _ (Same-Reads S L D Q w)) h
                  λ names read h'.
                    let listed =
                      λ (n : Str) (lacks : Lacks b':' n)
                          (there : present (L.view w (role_key S n)) ≡ true).
                        role_names_complete S L n _ names lacks
                          (ap (λ s. present (s (role_key S n))) h.store ∙ there) read in
                    quiet-bind S L D Q w _ _ _ (told _ t3) h' λ _ _ h.
                      quiet-bind S L D Q w _ _ _ (Keeps-gets _) h λ t4 _ h.
                        quiet-bind S L D Q w _ _ _
                          (gather_roles-Keeps S _ (Same-Reads S L D Q w) channel names g.chremoas) h
                          λ chremoas folded h'.
                            let granted = λ (y : Str).
                              (gather_roles-Granted S L T w id y channel names g.chremoas _
                                  h.store).holds
                                chremoas folded in
                            quiet-bind S L D Q w _ _ _ (told _ t4) h' λ _ _ h.
                              quiet-bind S L D Q w _ _ _ (Keeps-gets _) h λ t5 _ h.
                                quiet-bind S L D Q w _ _ _
                                  (send_dual_message-Keeps S _ (Same-Reads S L D Q w) _ channel
                                    send)
                                  h
                                  λ _ _ h.
                                    let updates = λ (rs : List DiscordRole).
                                      update_members S (role_name_map rs []) g chremoas in
                                    >>=-Ensures _ _ λ u applied. record {
                                      holds = λ z e. record {
                                        g = g;
                                        names = names;
                                        chremoas = chremoas;
                                        collected = record {
                                          found = found;
                                          listed = listed;
                                          plain = λ n. role_names-Lacks S L _ names n read;
                                          granted = granted;
                                        };
                                        final =
                                            ap (λ f. f id x)
                                              ((send_since-Keeps S _ (Same-Reads S L D Q _) _ t5
                                                  channel send).at
                                                _ (Same_refl S L D _)).has_role
                                            ∙ (apply_updates-Ensures S L T D Q id channel x
                                                  (updates roles) _ meets o.updates
                                                  (ap (λ s. has (s (list_key S L T D Q id)) id)
                                                      h.store
                                                    ∙ o.unlisted)).holds
                                                u applied
                                            ∙ ap₂
                                                (λ (f : Str → Str → Bool) (q : List DiscordRole).
                                                  if is_some (lookup id (updates q))
                                                  then planned S T (updates q) id x
                                                  else f id x)
                                                h.has_role ids;
                                      };
                                    }

    sync_found-Ran :
        (t : ℕ) (g : Option (Gathered S)) (v : S.World)
        → Same S L D w v
        → ((f : Gathered S) → g ≡ some f → Found S L T D Q m f)
        → Ensures (sync_found S channel send t g) v (λ r u. r ≡ some tt → Ran x u)
    sync_found-Ran t none v h found = Ensures-pure _ (λ e. cc)
    sync_found-Ran t (some g) v h found =
        quiet-bind S L D Q w _ _ _ (send_since-Keeps S _ (Same-Reads S L D Q w) _ t channel send) h
          λ _ _ h.
            >>=-Ensures _ _
              λ u e. Ensures-pure _ λ _. (sync_gathered-Ran g _ h (found g refl)).holds u e

    pub sync_members-Ran :
        (fuel : ℕ)
        → (sync_members S fuel channel send w).0 ≡ ok (some tt)
        → Ran x (sync_members S fuel channel send w).1
    unfolding sync_members gets
    sync_members-Ran fuel e =
        let run : Ensures (sync_members S fuel channel send) w (λ r u. r ≡ some tt → Ran x u) =
          >>=-Ensures _ _ λ t _. >>=-Ensures _ _ λ g gathered.
            sync_found-Ran t g _
              ((gather_pages-Keeps S _ (Same-Reads S L D Q w) channel fuel (start S)).at w
                (Same_refl S L D w))
              (λ f q.
                gather_pages-Found S L T D Q m channel fuel w f o.among o.only o.positive
                  (gathered ∙ ap ok q)) in
        run.holds (some tt) e refl
