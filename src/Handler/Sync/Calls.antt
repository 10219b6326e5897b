-- ===== src/Handler/Sync/Calls.antt =====
-- What the parts of a synchronisation keep, from what the calls keep that they make.
use role_srv.Base.{
  ℕ, zero, suc, Bool, Str, List, Option, none, some, Dict, Result, ok, err, panic, Exec, fold_each,
  Keeps, keeps_rules, Keeps-pure, Keeps-crash, Keeps-raise, Keeps-bind, Keeps-attempt, Keeps-if,
  Keeps-fold_each, Keeps-gets, gets, ◌>>=◌, ◌>>◌, length, pos, str, ◌++◌, keys as keys_of, [],
  Keeps-for_each,
}
use role_srv.Strconv.{format_int}
use role_srv.Gateway.{DiscordRole}
use role_srv.Services.{Services}
use role_srv.Handler.Roles.{role_names, find_role}
use role_srv.Handler.Membership.{role_membership, filters_membership, single_filter, both_filters}
use role_srv.Handler.Sync.Report.{report, reported, reporting, send_message, send_dual_message}
use role_srv.Handler.Sync.Members.Gather.{
  Gathered, gather_role, gather_pages, gather_page, page_is_empty, number_per_page, role_name_map,
}
use role_srv.Handler.Sync.Members.Update.{update_members, update_one, after_update, apply_updates}
use role_srv.Handler.Sync.Members.Run.{send_since, sync_gathered, sync_found, sync_members}

module _ (S : Services) (P : S.World → Type 0) where
  -- Each read that syncMembers makes keeps P, and each message.
  pub record Reads : Type 0 where
    pub exists : (k : Str) → Keeps P (S.redis.exists k)
    pub keys : (p : Str) → Keeps P (S.redis.keys p)
    pub h_get_all : (k : Str) → Keeps P (S.redis.h_get_all k)
    pub s_members : (k : Str) → Keeps P (S.redis.s_members k)
    pub s_inter : (a b : Str) → Keeps P (S.redis.s_inter a b)
    pub s_is_member : (k x : Str) → Keeps P (S.redis.s_is_member k x)
    pub get_all_members : (n : ℕ) (after : Str) → Keeps P (S.gateway.get_all_members n after)
    pub get_all_roles : Keeps P S.gateway.get_all_roles
    pub send : (c t : Str) → Keeps P (S.gateway.send_message c t)

  -- The updates of members too.
  pub record Calls : Type 0 where
    pub reads : Reads
    pub update_member : (m : Str) (ids : List Str) → Keeps P (S.gateway.update_member m ids)

  module _ (K : Reads) where
    open K use {exists, keys, h_get_all, s_members, s_inter, get_all_members, send}

    pub send_message-Keeps : (c t : Str) (b : Bool) → Keeps P (send_message S c t b)
    unfolding send_message
    send_message-Keeps c t b = search (keeps_rules, send) depth 12

    pub send_dual_message-Keeps : (t c : Str) (b : Bool) → Keeps P (send_dual_message S t c b)
    unfolding send_dual_message
    send_dual_message-Keeps t c b = send_message-Keeps c _ b

    pub send_since-Keeps : (t : Str) (n : ℕ) (c : Str) (b : Bool) → Keeps P (send_since S t n c b)
    unfolding send_since
    send_since-Keeps t n c b = search (keeps_rules, send_dual_message-Keeps) depth 12

    pub report-Keeps : (c p e : Str) → Keeps P (report S c p e)
    unfolding report
    report-Keeps c p e = send_message-Keeps c _ Bool.true

    reported-Keeps : {A : Type 0} (c p : Str) (r : Result A) → Keeps P (reported S c p r)
    reported-Keeps c p (ok a) = Keeps-pure a
    reported-Keeps c p (err e) = Keeps-bind _ _ (report-Keeps c p e) (λ _. Keeps-raise e)
    reported-Keeps c p panic = Keeps-crash

    pub reporting-Keeps :
        {A : Type 0} (c p : Str) (m : Exec S.World A) → Keeps P m → Keeps P (reporting S c p m)
    unfolding reporting
    reporting-Keeps c p m k = Keeps-bind _ _ (Keeps-attempt m k) (reported-Keeps c p)

    pub role_names-Keeps : Keeps P (role_names S)
    unfolding role_names
    role_names-Keeps = search (keeps_rules, keys) depth 12

    pub find_role-Keeps : (r : Str) → Keeps P (find_role S r)
    unfolding find_role
    find_role-Keeps r = search (keeps_rules, exists, h_get_all) depth 12

    pub role_membership-Keeps : (r : Str) → Keeps P (role_membership S r)
    unfolding role_membership filters_membership single_filter both_filters
    role_membership-Keeps r = search (keeps_rules, exists, h_get_all, s_members, s_inter) depth 20

    gather_role-Keeps : (c r : Str) (d : Dict S.sets.StringSet) → Keeps P (gather_role S c r d)
    unfolding gather_role
    gather_role-Keeps c r d =
        search (keeps_rules, reporting-Keeps, find_role-Keeps, role_membership-Keeps) depth 20

    pub gather_pages-Keeps :
        (c : Str) (fuel : ℕ) (g : Gathered S) → Keeps P (gather_pages S c fuel g)
    unfolding gather_pages
    gather_pages-Keeps c zero g = Keeps-pure _
    gather_pages-Keeps c (suc fuel) g =
        Keeps-bind _ _ (reporting-Keeps c _ _ (get_all_members number_per_page g.last)) λ page.
          Keeps-if (page_is_empty S page) _ _ (Keeps-pure _)
            (gather_pages-Keeps c fuel (gather_page S page g))

    pub gather_roles-Keeps :
        (c : Str) (rs : List Str) (d : Dict S.sets.StringSet)
        → Keeps P (fold_each (gather_role S c) rs d)
    gather_roles-Keeps c rs d = Keeps-fold_each _ rs d (gather_role-Keeps c)

  module _ (K : Calls) where
    open K use {reads, update_member}

    after_update-Keeps : (c : Str) (r : Result (Unit {0})) → Keeps P (after_update S c r)
    after_update-Keeps c (ok _) = Keeps-pure _
    after_update-Keeps c (err e) = report-Keeps reads c _ e
    after_update-Keeps c panic = Keeps-crash

    update_one-Keeps :
        (c : Str) (d : Dict S.sets.StringSet) (m : Str) → Keeps P (update_one S c d m)
    unfolding update_one
    update_one-Keeps c d m =
        search (keeps_rules, reads.s_is_member, update_member, after_update-Keeps) depth 20

    updates-Keeps : (c : Str) (d : Dict S.sets.StringSet) → Keeps P (apply_updates S c d)
    unfolding apply_updates
    updates-Keeps c d = Keeps-bind _ _ (Keeps-for_each _ _ (update_one-Keeps c d)) λ _. Keeps-pure _

    -- What is left once the roles are known.
    gathered-Keeps :
        (c : Str) (b : Bool) (g : Gathered S) (roles : List DiscordRole) (names : List Str)
        → Keeps P (do
          t4 ← gets S.now
          chremoas ← fold_each (gather_role S c) names g.chremoas
          send_since S (str "Got all role Memberships") t4 c b
          t5 ← gets S.now
          let updates = update_members S (role_name_map roles []) g chremoas
          send_dual_message S
              (str "Updating "
                ++ (format_int (pos (length (keys_of updates))) ++ str " discord users"))
              c
              b
          apply_updates S c updates
          send_since S (str "Updated Discord Roles") t5 c b)
    gathered-Keeps c b g roles names = Keeps-bind _ _ (Keeps-gets _) λ t4.
        Keeps-bind _ _ (gather_roles-Keeps reads c names _) λ chremoas.
          Keeps-bind _ _ (send_since-Keeps reads _ t4 c b) λ _. Keeps-bind _ _ (Keeps-gets _) λ t5.
            Keeps-bind _ _ (send_dual_message-Keeps reads _ c b)
              λ _. Keeps-bind _ _ (updates-Keeps c _) λ _. send_since-Keeps reads _ t5 c b

    sync_gathered-Keeps : (c : Str) (b : Bool) (g : Gathered S) → Keeps P (sync_gathered S c b g)
    unfolding sync_gathered
    sync_gathered-Keeps c b g = Keeps-bind _ _ (Keeps-gets _) λ t2.
        Keeps-bind _ _ (reporting-Keeps reads c _ _ reads.get_all_roles) λ roles.
          Keeps-bind _ _ (send_since-Keeps reads _ t2 c b) λ _. Keeps-bind _ _ (Keeps-gets _) λ t3.
            Keeps-bind _ _ (reporting-Keeps reads c _ _ (role_names-Keeps reads)) λ names.
              Keeps-bind _ _ (send_since-Keeps reads _ t3 c b) λ _. gathered-Keeps c b g roles names

    sync_found-Keeps :
        (c : Str) (b : Bool) (t : ℕ) (g : Option (Gathered S)) → Keeps P (sync_found S c b t g)
    sync_found-Keeps c b t none = Keeps-pure none
    sync_found-Keeps c b t (some g) =
        search (keeps_rules, send_since-Keeps reads, sync_gathered-Keeps) depth 12

    pub sync_members-Keeps : (fuel : ℕ) (c : Str) (b : Bool) → Keeps P (sync_members S fuel c b)
    unfolding sync_members
    sync_members-Keeps fuel c b =
        search (keeps_rules, gather_pages-Keeps reads, sync_found-Keeps) depth 12
