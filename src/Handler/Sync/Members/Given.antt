-- ===== src/Handler/Sync/Members/Given.antt =====
-- The roles that syncMembers gives a user.
use role_srv.Base.{
  List, [], ◌∷◌, map, Str, ◌=?◌, =?-eq, =?-refl, =?_iff, ◌≡◌, ◌≢◌, ◌∙◌, ap, sym, refl, arith, Bool,
  true, false, not, ◌&&◌, ◌||◌, ◌==◌, Dict, lookup, insert, lookup-insert, keys, contains,
  contains-keys, is_empty, at, some, Bool-cases, inl, inr,
}
use role_srv.StringSets.{StringSetLaws}
use role_srv.Services.{Services}
use role_srv.Handler.Sync.Members.Gather.{Gathered, or_new}
use role_srv.Handler.Sync.Members.Update.{
  ignore_role, add_ids, differ, update_user, plan_user, plan_updates, update_members,
}
use role_srv.Handler.Sync.Members.Planned.{lookup-plan_user}

module _ (S : Services) (T : StringSetLaws S.sets) where
  open S.sets use {StringSet, range, has, new, difference}

  -- A loop over a map meets exactly the keys that the map holds.
  abbrev pub MeetsKeys : Type 0
  MeetsKeys = (ks : List Str) (k : Str) → contains (S.order ks) k ≡ contains ks k

  -- `x` is the id of one of the named roles.
  abbrev pub is_id_of : Dict Str → List Str → Str → Bool
  is_id_of ids rs x = not (is_empty x) && contains (map (λ r. at r ids) rs) x

  -- `x` is in the entry of user `m`.
  abbrev pub planned : Dict StringSet → Str → Str → Bool
  planned u m x = has (or_new S (lookup m u)) x

  planned-add_ids :
      (ids : Dict Str) (m : Str) (rs : List Str) (u : Dict StringSet) (x : Str)
      → planned (add_ids S ids m rs u) m x ≡ (is_id_of ids rs x || planned u m x)
  unfolding add_ids contains
  planned-add_ids ids m [] u x = ground arith
  planned-add_ids ids m (r ∷ rs) u x =
      let s = S.sets.add (at r ids) (or_new S (lookup m u)) in
      let e : lookup m (insert m s u) ≡ some s = rw (lookup-insert, =?-refl m) in
      let now : planned (insert m s u) m x ≡ has s x = ap (λ o. has (or_new S o) x) e in
      planned-add_ids ids m rs (insert m s u) x
      ∙ ground (arith, now, T.has-add (at r ids) x (or_new S (lookup m u)), =?_iff (at r ids) x)

  no_difference :
      (s t : StringSet) (y : Str)
      → (S.sets.len (difference s t) == 0) ≡ true
      → (has s y && not (has t y)) ≡ false
  unfolding contains
  no_difference s t y e =
      let nothing : range (difference s t) ≡ [] = (T.len_zero (difference s t)).0 (ground arith) in
      sym (T.has-difference s t y)
      ∙ sym (T.contains-range (difference s t) y)
      ∙ ap (λ l. contains l y) nothing

  pub differ_of_ne : (c d : StringSet) (y : Str) → has c y ≢ has d y → differ S c d ≡ true
  unfolding differ
  differ_of_ne c d y n = elim (Bool-cases (differ S c d)) [
    | inl e ↦ e
    | inr e ↦ absurd (n (ground (arith, no_difference c d y, no_difference d c y)))
  ]

  module _ (ids : Dict Str) (g : Gathered S) (chremoas : Dict StringSet) (m : Str)
      (c d : StringSet) where
    planned_self :
        (u : Dict StringSet) (x : Str)
        → lookup m chremoas ≡ some c
        → lookup m g.discord ≡ some d
        → differ S c d ≡ true
        → ignore_role S (at m g.names) ≡ false
        → planned (plan_user S ids g.names m (lookup m chremoas) (lookup m g.discord) u) m x
          ≡ (is_id_of ids (range c) x || planned u m x)
    unfolding update_user
    planned_self u x h k n i = rw (h, k, n, i) (planned-add_ids ids m (range c) u x)

    planned-plan_updates :
        (ms : List Str) (u : Dict StringSet) (x : Str)
        → lookup m chremoas ≡ some c
        → lookup m g.discord ≡ some d
        → differ S c d ≡ true
        → ignore_role S (at m g.names) ≡ false
        → planned (plan_updates S ids g chremoas ms u) m x
          ≡ ((contains ms m && is_id_of ids (range c) x) || planned u m x)
    unfolding plan_updates contains
    planned-plan_updates [] u x h k n i = refl
    planned-plan_updates (a ∷ ms) u x h k n i =
        let u' = plan_user S ids g.names a (lookup a chremoas) (lookup a g.discord) u in
        planned-plan_updates ms u' x h k n i ∙ elim (Bool-cases (a =? m)) [
          | inl e ↦
              let q : a ≡ m = =?-eq a m e in
              ground (
                arith,
                ap
                      (λ b.
                        planned
                          (plan_user S ids g.names b (lookup b chremoas) (lookup b g.discord) u) m
                          x)
                      q
                    ∙ planned_self u x h k n i,
                e,
              )
          | inr e ↦
              let kept : planned u' m x ≡ planned u m x =
                ap (λ o. has (or_new S o) x)
                  (lookup-plan_user S ids g.names m a (lookup a chremoas) (lookup a g.discord) u
                    e) in
              ground (arith, kept, e)
        ]

  -- If a loop over a map meets exactly its keys, then a user of Discord whose name is not ignored, and
  -- whose roles differ from those in the store, is to be given exactly the roles in the store: the
  -- ids of Discord's roles of those names.
  pub update_members-gives :
      (ids : Dict Str) (g : Gathered S) (chremoas : Dict StringSet) (m : Str) (c d : StringSet)
      (x y : Str)
      → MeetsKeys
      → lookup m chremoas ≡ some c
      → lookup m g.discord ≡ some d
      → has c y ≢ has d y
      → ignore_role S (at m g.names) ≡ false
      → planned (update_members S ids g chremoas) m x ≡ is_id_of ids (range c) x
  unfolding update_members lookup
  update_members-gives ids g chremoas m c d x y o h k n i =
      planned-plan_updates ids g chremoas m c d _ [] x h k (differ_of_ne c d y n) i
      ∙ ground (arith, o (keys chremoas) m, contains-keys chremoas m, T.has-new x, h)
