-- ===== src/Handler/Sync/Answers.antt =====
-- A synchronisation does not panic, if none of the calls does that it makes.
use role_srv.Base.{
  ℕ, zero, suc, ◌≢◌, refl, Bool, Str, List, Option, none, some, Dict, Result, ok, err, panic, Exec,
  Returns, Returns-attempt, Returns-pure, Returns-raise, Returns-bind, Returns-if, Returns-gets,
  Returns-for_each, Returns-fold_each, returns_rules, Yields, Yields-attempt, Yields-gets, pure,
}
use role_srv.Gateway.{EditRoleRequest}
use role_srv.Services.{Services}
use role_srv.Handler.Roles.{role_names, find_role}
use role_srv.Handler.Membership.{role_membership, filters_membership, single_filter, both_filters}
use role_srv.Handler.Sync.Report.{report, reported, reporting, send_message, send_dual_message}
use role_srv.Handler.Sync.Roles.{
  sync_roles, apply_roles, create_role, created, delete_role, edit_role, match_discord_error,
  Wanted,
}
use role_srv.Handler.Sync.Roles as SyncRoles
use role_srv.Handler.Sync.Members.Gather.{
  Gathered, gather_role, gather_pages, gather_page, page_is_empty, number_per_page,
}
use role_srv.Handler.Sync.Members.Update.{update_one, after_update, apply_updates}
use role_srv.Handler.Sync.Members.Run.{send_since, sync_gathered, sync_found, sync_members}

-- The clients of Redis and of the gateway reply with a value or an error.
pub record Answers (S : Services) : Type 0 where
  pub exists : (k : Str) → Returns (S.redis.exists k)
  pub keys : (p : Str) → Returns (S.redis.keys p)
  pub h_get_all : (k : Str) → Returns (S.redis.h_get_all k)
  pub s_members : (k : Str) → Returns (S.redis.s_members k)
  pub s_inter : (a b : Str) → Returns (S.redis.s_inter a b)
  pub s_is_member : (k x : Str) → Returns (S.redis.s_is_member k x)
  pub get_all_members : (n : ℕ) (after : Str) → Returns (S.gateway.get_all_members n after)
  pub get_all_roles : Returns S.gateway.get_all_roles
  pub create_role : (r : Str) → Returns (S.gateway.create_role r)
  pub delete_role : (r : Str) → Returns (S.gateway.delete_role r)
  pub edit_role : (q : EditRoleRequest) → Returns (S.gateway.edit_role q)
  pub update_member : (m : Str) (ids : List Str) → Returns (S.gateway.update_member m ids)
  pub send : (c t : Str) → Returns (S.gateway.send_message c t)

module _ (S : Services) (A : Answers S) where
  open A use {exists, keys, h_get_all, s_members, s_inter, get_all_members}

  pub send_message-Yields : (c t : Str) (b : Bool) → Yields (send_message S c t b) tt
  unfolding send_message pure
  send_message-Yields c t Bool.true =
      Yields-attempt _ _ tt (A.send c t) (λ w. record { at = λ v. refl })
  send_message-Yields c t Bool.false = record { at = λ w. refl }

  send_message-Returns : (c t : Str) (b : Bool) → Returns (send_message S c t b)
  send_message-Returns c t b = record {
    at = λ w h. let said = (send_message-Yields c t b).at w in cc;
  }

  send_dual_message-Returns : (t c : Str) (b : Bool) → Returns (send_dual_message S t c b)
  unfolding send_dual_message
  send_dual_message-Returns t c b = send_message-Returns c _ b

  send_since-Returns : (t : Str) (n : ℕ) (c : Str) (b : Bool) → Returns (send_since S t n c b)
  unfolding send_since
  send_since-Returns t n c b = search (returns_rules, send_dual_message-Returns) depth 12

  pub send_dual_message-Yields : (t c : Str) (b : Bool) → Yields (send_dual_message S t c b) tt
  unfolding send_dual_message
  send_dual_message-Yields t c b = send_message-Yields c _ b

  pub send_since-Yields : (t : Str) (n : ℕ) (c : Str) (b : Bool) → Yields (send_since S t n c b) tt
  unfolding send_since
  send_since-Yields t n c b = Yields-gets _ _ tt (λ m. send_dual_message-Yields m c b)

  report-Returns : (c p e : Str) → Returns (report S c p e)
  unfolding report
  report-Returns c p e = send_message-Returns c _ Bool.true

  reported-Returns :
      {B : Type 0} (c p : Str) (r : Result B) → r ≢ panic → Returns (reported S c p r)
  reported-Returns c p (ok a) n = Returns-pure a
  reported-Returns c p (err e) n = Returns-bind _ _ (report-Returns c p e) (λ _. Returns-raise e)
  reported-Returns c p panic n = absurd (n refl)

  reporting-Returns :
      {B : Type 0} (c p : Str) (m : Exec S.World B) → Returns m → Returns (reporting S c p m)
  unfolding reporting
  reporting-Returns c p m k = Returns-attempt m _ k (λ o n. reported-Returns c p o n)

  role_names-Returns : Returns (role_names S)
  unfolding role_names
  role_names-Returns = search (returns_rules, keys) depth 12

  find_role-Returns : (r : Str) → Returns (find_role S r)
  unfolding find_role
  find_role-Returns r = search (returns_rules, exists, h_get_all) depth 12

  role_membership-Returns : (r : Str) → Returns (role_membership S r)
  unfolding role_membership filters_membership single_filter both_filters
  role_membership-Returns r = search (returns_rules, exists, h_get_all, s_members, s_inter) depth 20

  gather_role-Returns : (c r : Str) (d : Dict S.sets.StringSet) → Returns (gather_role S c r d)
  unfolding gather_role
  gather_role-Returns c r d =
      search (returns_rules, reporting-Returns, find_role-Returns, role_membership-Returns) depth 20

  gather_pages-Returns : (c : Str) (fuel : ℕ) (g : Gathered S) → Returns (gather_pages S c fuel g)
  unfolding gather_pages
  gather_pages-Returns c zero g = Returns-pure _
  gather_pages-Returns c (suc fuel) g =
      Returns-bind _ _ (reporting-Returns c _ _ (get_all_members number_per_page g.last)) λ page.
        Returns-if (page_is_empty S page) _ _ (Returns-pure _)
          (gather_pages-Returns c fuel (gather_page S page g))

  after_update-Returns :
      (c : Str) (r : Result (Unit {0})) → r ≢ panic → Returns (after_update S c r)
  after_update-Returns c (ok _) n = Returns-pure _
  after_update-Returns c (err e) n = report-Returns c _ e
  after_update-Returns c panic n = absurd (n refl)

  update_one-Returns :
      (c : Str) (d : Dict S.sets.StringSet) (m : Str) → Returns (update_one S c d m)
  unfolding update_one
  update_one-Returns c d m = Returns-attempt _ _ (A.s_is_member _ m) λ o _.
      Returns-if _ _ _ (Returns-pure _)
        (Returns-attempt _ _ (A.update_member m _) (λ r n. after_update-Returns c r n))

  updates-Returns : (c : Str) (d : Dict S.sets.StringSet) → Returns (apply_updates S c d)
  unfolding apply_updates
  updates-Returns c d =
      Returns-bind _ _ (Returns-for_each _ _ (update_one-Returns c d)) λ _. Returns-pure _

  sync_gathered-Returns : (c : Str) (b : Bool) (g : Gathered S) → Returns (sync_gathered S c b g)
  unfolding sync_gathered
  sync_gathered-Returns c b g = Returns-bind _ _ (Returns-gets _) λ t2.
      Returns-bind _ _ (reporting-Returns c _ _ A.get_all_roles) λ roles.
        Returns-bind _ _ (send_since-Returns _ t2 c b) λ _. Returns-bind _ _ (Returns-gets _) λ t3.
          Returns-bind _ _ (reporting-Returns c _ _ role_names-Returns) λ names.
            Returns-bind _ _ (send_since-Returns _ t3 c b) λ _.
              Returns-bind _ _ (Returns-gets _) λ t4.
                Returns-bind _ _ (Returns-fold_each _ names _ (gather_role-Returns c)) λ chremoas.
                  Returns-bind _ _ (send_since-Returns _ t4 c b) λ _.
                    Returns-bind _ _ (Returns-gets _) λ t5.
                      Returns-bind _ _ (send_dual_message-Returns _ c b)
                        λ _. Returns-bind _ _ (updates-Returns c _) λ _. send_since-Returns _ t5 c b

  sync_found-Returns :
      (c : Str) (b : Bool) (t : ℕ) (g : Option (Gathered S)) → Returns (sync_found S c b t g)
  sync_found-Returns c b t none = Returns-pure none
  sync_found-Returns c b t (some g) =
      search (returns_rules, send_since-Returns, sync_gathered-Returns) depth 12

  pub sync_members-Returns : (fuel : ℕ) (c : Str) (b : Bool) → Returns (sync_members S fuel c b)
  unfolding sync_members
  sync_members-Returns fuel c b =
      search (returns_rules, gather_pages-Returns, sync_found-Returns) depth 12

  created-Returns : (c r : Str) (o : Result (Unit {0})) → o ≢ panic → Returns (created S c r o)
  created-Returns c r (ok _) n = Returns-pure _
  created-Returns c r (err e) n =
      Returns-if (match_discord_error e) _ _ (Returns-pure _)
        (Returns-bind _ _ (report-Returns c _ e) (λ _. Returns-raise e))
  created-Returns c r panic n = absurd (n refl)

  create_role-Returns : (c r : Str) → Returns (create_role S c r)
  unfolding create_role
  create_role-Returns c r = Returns-attempt _ _ (A.create_role r) (λ o n. created-Returns c r o n)

  delete_role-Returns : (c r : Str) → Returns (delete_role S c r)
  unfolding delete_role
  delete_role-Returns c r = reporting-Returns c _ _ (A.delete_role r)

  edit_role-Returns :
      (c : Str) (infos : Dict (Dict Str)) (r : Str) → Returns (edit_role S c infos r)
  unfolding edit_role
  edit_role-Returns c infos r = reporting-Returns c _ _ (A.edit_role _)

  apply_roles-Returns :
      (c : Str) (wanted : Wanted S) (there : S.sets.StringSet)
      → Returns (apply_roles S c wanted there)
  unfolding apply_roles
  apply_roles-Returns c wanted there =
      Returns-bind _ _ (Returns-for_each _ _ (create_role-Returns c)) λ _.
        Returns-bind _ _ (Returns-for_each _ _ (delete_role-Returns c)) λ _.
          Returns-bind _ _ (Returns-for_each _ _ (edit_role-Returns c wanted.infos))
            λ _. Returns-pure _

  gather_wanted-Returns :
      (c r : Str) (wanted : Wanted S) → Returns (SyncRoles.gather_role S c r wanted)
  unfolding SyncRoles.gather_role
  gather_wanted-Returns c r wanted =
      Returns-bind _ _ (reporting-Returns c _ _ (h_get_all _))
        λ found. Returns-if _ _ _ (Returns-pure _) (Returns-pure _)

  pub sync_roles-Returns : (c : Str) → Returns (sync_roles S c)
  unfolding sync_roles
  sync_roles-Returns c = Returns-bind _ _ (reporting-Returns c _ _ role_names-Returns) λ names.
      Returns-bind _ _ (Returns-fold_each _ names _ (gather_wanted-Returns c)) λ wanted.
        Returns-bind _ _ (reporting-Returns c _ _ A.get_all_roles)
          λ roles. apply_roles-Returns c wanted _
