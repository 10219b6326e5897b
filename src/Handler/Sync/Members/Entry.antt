-- ===== src/Handler/Sync/Members/Entry.antt =====
-- The entry of an updated user among the planned updates, by what the two sides say of the user.
use role_srv.Base.{
  ◌≡◌, ◌∙◌, ap, refl, arith, true, false, not, ◌&&◌, List, [], ◌∷◌, Str, ◌=?◌, =?-eq, =?-refl, Dict,
  lookup, lookup-insert, keys, contains, contains-keys, at, Option, none, some, is_some, Bool-cases,
  inl, inr,
}
use role_srv.StringSets.{StringSetLaws}
use role_srv.Services.{Services}
use role_srv.Handler.Sync.Members.Gather.{Gathered}
use role_srv.Handler.Sync.Members.Update.{
  ignore_role, add_ids, differ, update_user, plan_user, plan_updates, update_members,
}
use role_srv.Handler.Sync.Members.Given.{MeetsKeys}

pub some_of {ℓ} : {A : Type ℓ} (o : Option A) → is_some o ≡ true → (a : A) × (o ≡ some a)
some_of none h = cc
some_of (some a) h = (a, refl)

module _ (S : Services) (T : StringSetLaws S.sets) where
  open S.sets use {StringSet, range, has}

  is_some-add_ids_stays :
      (ids : Dict Str) (m k : Str) (rs : List Str) (u : Dict StringSet)
      → is_some (lookup m u) ≡ true
      → is_some (lookup m (add_ids S ids k rs u)) ≡ true
  unfolding add_ids
  is_some-add_ids_stays ids m k [] u h = h
  is_some-add_ids_stays ids m k (r ∷ rs) u h =
      is_some-add_ids_stays ids m k rs _ (rw lookup-insert (ground arith))

  is_some-add_ids :
      (ids : Dict Str) (m y : Str) (rs : List Str) (u : Dict StringSet)
      → contains rs y ≡ true
      → is_some (lookup m (add_ids S ids m rs u)) ≡ true
  unfolding add_ids contains
  is_some-add_ids ids m y [] u h = cc
  is_some-add_ids ids m y (r ∷ rs) u h =
      is_some-add_ids_stays ids m m rs _ (rw (lookup-insert, =?-refl m) refl)

  is_some-plan_user_stays :
      (ids names : Dict Str) (m k : Str) (c d : Option StringSet) (u : Dict StringSet)
      → is_some (lookup m u) ≡ true
      → is_some (lookup m (plan_user S ids names k c d u)) ≡ true
  unfolding update_user
  is_some-plan_user_stays ids names m k none d u h = h
  is_some-plan_user_stays ids names m k (some c) none u h = h
  is_some-plan_user_stays ids names m k (some c) (some d) u h =
      elim (Bool-cases (differ S c d && not (ignore_role S (at k names)))) [
        | inl e ↦ rw e (is_some-add_ids_stays ids m k (range c) u h)
        | inr e ↦ rw e h
      ]

  module _ (ids : Dict Str) (g : Gathered S) (chremoas : Dict StringSet) (m : Str) where
    is_some-plan_updates_stays :
        (ms : List Str) (u : Dict StringSet)
        → is_some (lookup m u) ≡ true
        → is_some (lookup m (plan_updates S ids g chremoas ms u)) ≡ true
    unfolding plan_updates
    is_some-plan_updates_stays [] u h = h
    is_some-plan_updates_stays (k ∷ ms) u h =
        is_some-plan_updates_stays ms _
          (is_some-plan_user_stays ids g.names m k (lookup k chremoas) (lookup k g.discord) u h)

    -- The user is in both maps with different roles, has a role in the store, and is not ignored.
    pub record Differs (c d : StringSet) : Type 0 where
      pub in_store : lookup m chremoas ≡ some c
      pub on_discord : lookup m g.discord ≡ some d
      pub differ_there : differ S c d ≡ true
      pub not_ignored : ignore_role S (at m g.names) ≡ false

    module _ (c d : StringSet) (y : Str) (h : Differs c d) (granted : has c y ≡ true) where
      is_some-plan_user :
          (u : Dict StringSet)
          → is_some
              (lookup m (plan_user S ids g.names m (lookup m chremoas) (lookup m g.discord) u))
            ≡ true
      unfolding update_user
      is_some-plan_user u =
          rw (h.in_store, h.on_discord, h.differ_there, h.not_ignored)
            (is_some-add_ids ids m y (range c) u (T.contains-range c y ∙ granted))

      is_some-plan_updates :
          (ms : List Str) (u : Dict StringSet)
          → contains ms m ≡ true
          → is_some (lookup m (plan_updates S ids g chremoas ms u)) ≡ true
      unfolding plan_updates contains
      is_some-plan_updates [] u e = cc
      is_some-plan_updates (k ∷ ms) u e = elim (Bool-cases (k =? m)) [
        | inl q ↦ is_some-plan_updates_stays ms _ (rw (=?-eq k m q) (is_some-plan_user u))
        | inr q ↦ is_some-plan_updates ms _ (rw q at e)
      ]

      pub is_some-update_members :
          MeetsKeys S T → is_some (lookup m (update_members S ids g chremoas)) ≡ true
      unfolding update_members
      is_some-update_members meets =
          is_some-plan_updates _ []
            (meets (keys chremoas) m ∙ contains-keys chremoas m ∙ ap is_some h.in_store)
