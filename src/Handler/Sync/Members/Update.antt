-- ===== src/Handler/Sync/Members/Update.antt =====
-- The second half of syncMembers: which users are updated, and the updates.
use role_srv.Base.{
  Bool, false, not, ◌&&◌, ◌||◌, List, [], ◌∷◌, Str, str, ◌==◌, contains, Dict, lookup, insert, keys,
  at, Option, some, Exec, Result, ok, err, panic, pure, crash, attempt, ◌>>=◌, ◌>>◌, if◌then◌else◌,
  for_each,
}
use role_srv.Services.{Services}
use role_srv.Handler.Sync.Report.{report}
use role_srv.Handler.Sync.Members.Gather.{Gathered, or_new}

module _ (S : Services) where
  open S use {World, redis, gateway, order, ignored_roles}
  open S.sets use {StringSet, new, add, len, range, difference}

  -- ignoreRole
  unfoldable pub ignore_role : Str → Bool
  ignore_role name = contains ignored_roles name

  -- The ids of a user's roles, one round of the innermost loop each.
  unfoldable pub add_ids : Dict Str → Str → List Str → Dict StringSet → Dict StringSet
  add_ids ids m [] d = d
  add_ids ids m (r ∷ rs) d = add_ids ids m rs (insert m (add (at r ids) (or_new S (lookup m d))) d)

  -- diff.Len() != 0 || diff2.Len() != 0
  unfoldable pub differ : StringSet → StringSet → Bool
  differ c d = not (len (difference c d) == 0) || not (len (difference d c) == 0)

  -- The round for a user that Discord has.
  unfoldable pub update_user :
      Dict Str → Str → Str → StringSet → StringSet → Dict StringSet → Dict StringSet
  update_user ids m name c d updates =
      if differ c d && not (ignore_role name) then add_ids ids m (range c) updates else updates

  abbrev pub plan_user :
      Dict Str
      → Dict Str
      → Str
      → Option StringSet
      → Option StringSet
      → Dict StringSet
      → Dict StringSet
  plan_user ids names m (some c) (some d) updates = update_user ids m (at m names) c d updates
  plan_user ids names m _ _ updates = updates

  -- The loop `for m := range chremoasMemberships`.
  unfoldable pub plan_updates :
      Dict Str → Gathered S → Dict StringSet → List Str → Dict StringSet → Dict StringSet
  plan_updates ids g chremoas [] updates = updates
  plan_updates ids g chremoas (m ∷ ms) updates =
      plan_updates ids g chremoas ms
        (plan_user ids g.names m (lookup m chremoas) (lookup m g.discord) updates)

  -- updateMembers
  unfoldable pub update_members : Dict Str → Gathered S → Dict StringSet → Dict StringSet
  update_members ids g chremoas = plan_updates ids g chremoas (order (keys chremoas)) []

  abbrev pub is_no_sync : Result Bool → Bool
  is_no_sync (ok b) = b
  is_no_sync _ = false

  abbrev pub after_update : Str → Result (Unit {0}) → Exec World (Unit {0})
  after_update channel (ok _) = pure tt
  after_update channel (err e) = report S channel (str "syncMembers: UpdateMember: ") e
  after_update channel panic = crash

  -- One round of the last loop. A failed update is reported and the loop goes on.
  unfoldable pub update_one : Str → Dict StringSet → Str → Exec World (Unit {0})
  update_one channel updates m = do
    no_sync ← attempt (redis.s_is_member (redis.key_name (str "members:no_sync")) m)
    let update = do
      done ← attempt (gateway.update_member m (range (or_new S (lookup m updates))))
      after_update channel done
    if is_no_sync no_sync then pure tt else update

  unfoldable pub apply_updates : Str → Dict StringSet → Exec World (Unit {0})
  apply_updates channel updates = do
    for_each (update_one channel updates) (order (keys updates))
    pure tt
