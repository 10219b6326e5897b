-- ===== src/Handler/Sync/Members/Planned.antt =====
-- Which users syncMembers updates.
use role_srv.Base.{
  List, [], ◌∷◌, Str, ◌=?◌, =?-eq, ◌≡◌, ◌∙◌, ap, ap₂, sym, refl, arith, true, false, not, ◌&&◌,
  Dict, lookup, lookup-insert, at, Option, none, some, Bool-cases, inl, inr,
}
use role_srv.Services.{Services}
use role_srv.Handler.Sync.Members.Gather.{Gathered}
use role_srv.Handler.Sync.Members.Update.{
  ignore_role, add_ids, differ, update_user, plan_user, plan_updates, update_members,
}

module _ (S : Services) where
  open S.sets use {StringSet, range}

  -- The round for a user adds to the entry of no other user.
  lookup-add_ids :
      (ids : Dict Str) (m k : Str) (rs : List Str) (d : Dict StringSet)
      → (k =? m) ≡ false
      → lookup m (add_ids S ids k rs d) ≡ lookup m d
  unfolding add_ids
  lookup-add_ids ids m k [] d h = refl
  lookup-add_ids ids m k (r ∷ rs) d h = lookup-add_ids ids m k rs _ h ∙ rw (lookup-insert, h)

  -- Nothing is to be done for a user without roles in the store, without an entry for Discord, with
  -- an ignored name or with the same roles on both sides.
  pub data Skipped (names : Dict Str) (m : Str) (c d : Option StringSet) : Type 0 where
    unknown : d ≡ none → Skipped names m c d
    ignored : ignore_role S (at m names) ≡ true → Skipped names m c d
    same : (a b : StringSet) → c ≡ some a → d ≡ some b → differ S a b ≡ false → Skipped names m c d
    without_roles : (a : StringSet) → c ≡ some a → range a ≡ [] → Skipped names m c d

  plan_user_skipped :
      (ids names : Dict Str) (m : Str) (c d : Option StringSet) (u : Dict StringSet)
      → Skipped names m c d
      → plan_user S ids names m c d u ≡ u
  unfolding update_user add_ids
  plan_user_skipped ids names m none d u h = refl
  plan_user_skipped ids names m (some c) none u h = refl
  plan_user_skipped ids names m (some c) (some d) u (unknown e) = cc
  plan_user_skipped ids names m (some c) (some d) u (ignored e) = ground arith
  plan_user_skipped ids names m (some c) (some d) u (same a b e f g) =
      let p : a ≡ c = cc in
      let q : b ≡ d = cc in
      let alike : differ S c d ≡ false = sym (ap₂ (differ S) p q) ∙ g in ground arith
  plan_user_skipped ids names m (some c) (some d) u (without_roles a e f) =
      let p : c ≡ a = cc in let nothing : range c ≡ [] = ap range p ∙ f in rw nothing (ground arith)

  pub lookup-plan_user :
      (ids names : Dict Str) (m k : Str) (c d : Option StringSet) (u : Dict StringSet)
      → (k =? m) ≡ false
      → lookup m (plan_user S ids names k c d u) ≡ lookup m u
  unfolding update_user
  lookup-plan_user ids names m k none d u h = refl
  lookup-plan_user ids names m k (some c) none u h = refl
  lookup-plan_user ids names m k (some c) (some d) u h =
      elim (Bool-cases (differ S c d && not (ignore_role S (at k names)))) [
        | inl e ↦ rw e (lookup-add_ids ids m k (range c) u h)
        | inr e ↦ rw e refl
      ]

  module _ (ids : Dict Str) (g : Gathered S) (chremoas : Dict StringSet) (m : Str) where
    lookup-plan_updates :
        (ms : List Str) (u : Dict StringSet)
        → Skipped g.names m (lookup m chremoas) (lookup m g.discord)
        → lookup m (plan_updates S ids g chremoas ms u) ≡ lookup m u
    unfolding plan_updates
    lookup-plan_updates [] u h = refl
    lookup-plan_updates (k ∷ ms) u h = lookup-plan_updates ms _ h ∙ elim (Bool-cases (k =? m)) [
      | inl e ↦ rw (=?-eq k m e) (
          ap (lookup m)
            (plan_user_skipped ids g.names m (lookup m chremoas) (lookup m g.discord) u h))
      | inr e ↦ lookup-plan_user ids g.names m k (lookup k chremoas) (lookup k g.discord) u e
    ]

  -- A user is not updated who is not in Discord, whose name is ignored, whose roles are the same on
  -- both sides, or who has no role in the store.
  pub update_members-skips :
      (ids : Dict Str) (g : Gathered S) (chremoas : Dict StringSet) (m : Str)
      → Skipped g.names m (lookup m chremoas) (lookup m g.discord)
      → lookup m (update_members S ids g chremoas) ≡ none
  unfolding update_members
  update_members-skips ids g chremoas m h =
      lookup-plan_updates ids g chremoas m _ [] h ∙ (unfold lookup in refl)
