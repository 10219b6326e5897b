-- ===== src/Handler/Sync/Members/Granted.antt =====
-- The roles that the store grants a user, as the loop of syncMembers over the roles collects them.
use role_srv.Base.{
  ◌≡◌, ◌∙◌, ap, ap₂, sym, refl, fun_ext, arith, Bool, true, false, not, ◌&&◌, ◌||◌, List, [], ◌∷◌,
  Str, str, ◌=?◌, =?-eq, is_empty, Dict, lookup, insert, lookup-insert, contains, is_some,
  if◌then◌else◌, at, or_empty, ok, fold_each, Ensures, >>=-Ensures, Ensures-pure, Bool-cases, inl,
  inr,
}
use role_srv.Redis.{RedisLaws, Entry, field}
use role_srv.StringSets.{StringSetLaws}
use role_srv.Services.{Services}
use role_srv.Handler.Keys.{role_key}
use role_srv.Handler.Membership.{role_membership}
use role_srv.Handler.Membership.Who.{role_membership-decides}
use role_srv.Handler.Membership.Listing.{lets_in}
use role_srv.Handler.Roles.{find_role}
use role_srv.Handler.Roles.Find.{find_role-fields, find_role-Keeps}
use role_srv.Handler.Reads.{role_membership-Keeps}
use role_srv.Handler.Sync.Report.Success.{reporting-bind}
use role_srv.Handler.Sync.Members.Gather.{or_new, give_role, gather_role, is_off}
use role_srv.Handler.Sync.Members.Given.{planned}

module _ (S : Services) where
  open S.sets use {StringSet}

  -- A role of the store grants the user the name `y`: it is not off, it has that Name, and its
  -- filters let the user in.
  abbrev pub grants_by : (Str → Entry) → Str → Str → Str → Bool
  grants_by v user y role =
      let read = λ (f : Str). or_empty (field (v (role_key S role)) f) in
      not (is_off S (read (str "Sync")))
      && (lets_in S v user role && (not (is_empty y) && read (str "Name") =? y))

  abbrev pub grants : (Str → Entry) → Str → Str → List Str → Bool
  grants v user y [] = false
  grants v user y (r ∷ rs) = grants_by v user y r || grants v user y rs

same_name :
    (user name y : Str) (inside p : Bool)
    → ((not (is_empty user)
          && (not (is_empty user) && inside)
          && (not (is_empty name) && name =? y))
        || p)
      ≡ (((not (is_empty user) && inside) && (not (is_empty y) && name =? y)) || p)
same_name user name y inside p = elim (Bool-cases (name =? y)) [
  | inl e ↦ rw (=?-eq name y e) (ground (arith))
  | inr e ↦ rw e (ground arith)
]

module _ (S : Services) (L : RedisLaws S.redis) (T : StringSetLaws S.sets) where
  open S.sets use {StringSet, range, has, new}

  -- A user's entry that is there stays there.
  is_some-give_role :
      (name user : Str) (ms : List Str) (d : Dict StringSet)
      → is_some (lookup user d) ≡ true
      → is_some (lookup user (give_role S name ms d)) ≡ true
  unfolding give_role
  is_some-give_role name user [] d h = h
  is_some-give_role name user (m ∷ ms) d h =
      is_some-give_role name user ms _
        (ground (arith, lookup-insert m user (S.sets.add name (or_new S (lookup m d))) d))

  planned-insert :
      (m user y : Str) (s : StringSet) (d : Dict StringSet)
      → planned S T (insert m s d) user y ≡ (if m =? user then has s y else planned S T d user y)
  planned-insert m user y s d =
      ap (λ o. has (or_new S o) y) (lookup-insert m user s d) ∙ ground arith

  planned-give_role :
      (name user y : Str) (ms : List Str) (d : Dict StringSet)
      → planned S T (give_role S name ms d) user y ≡ (
          (not (is_empty user) && contains ms user && (not (is_empty name) && name =? y))
          || planned S T d user y)
  unfolding give_role contains
  planned-give_role name user y [] d = ground arith
  planned-give_role name user y (m ∷ ms) d =
      let d' = insert m (S.sets.add name (or_new S (lookup m d))) d in
      let now : planned S T d' user y ≡ (
          if m =? user
          then (not (is_empty name) && name =? y) || planned S T d m y
          else planned S T d user y) =
        planned-insert m user y _ d
        ∙ ap (λ b. if m =? user then b else planned S T d user y)
            (T.has-add name y (or_new S (lookup m d))) in
      planned-give_role name user y ms _ ∙ elim (Bool-cases (m =? user)) [
        | inl e ↦
            let q : m ≡ user = =?-eq m user e in
            let same = ap is_empty q in
            let entry = ap (λ k. planned S T d k y) q in
            elim (Bool-cases (is_empty m)) [
              | inl f ↦ rw f (ground (arith, same))
              | inr f ↦ rw f (ground (arith, same, entry, now))
            ]
        | inr e ↦ elim (Bool-cases (is_empty m)) [
          | inl f ↦ rw (f, e) refl
          | inr f ↦ rw f (ground (arith, now))
        ]
      ]

  module _ (w : S.World) (user y : Str) where
    -- What one round adds to the user's entry.
    record Round (role : Str) (d d' : Dict StringSet) : Type 0 where
      entry : planned S T d' user y ≡ (grants_by S (L.view w) user y role || planned S T d user y)
      room : is_some (lookup user d) ≡ true → is_some (lookup user d') ≡ true

    gather_role-Round :
        (channel role : Str) (d : Dict StringSet) (v : S.World)
        → L.view v ≡ L.view w
        → Ensures
            (gather_role S channel role d)
            v
            (λ d' v'. Round role d d' × (L.view v' ≡ L.view w))
    unfolding gather_role at
    gather_role-Round channel role d v h = reporting-bind S channel _ _ _ v λ info e.
        let k = role_key S role in
        let store_at =
          λ (u : S.World) (q : L.view u ≡ L.view w) (f : Str) (i : Dict Str)
              (r : (find_role S role u).0 ≡ ok i).
            ap or_empty (
              (find_role-fields S L role u).holds i r f
              ∙ ap (λ (s : Str → Entry). field (s k) f) q) in
        let v1 = (find_role S role v).1 in
        let v2 = (role_membership S role v1).1 in
        let h1 : L.view v1 ≡ L.view w =
          fun_ext (λ j. ((find_role-Keeps S L j (L.view v j) role).at v (record { at = refl })).at)
          ∙ h in
        let h2 : L.view v2 ≡ L.view w =
          fun_ext (λ j.
            ((role_membership-Keeps S L j (L.view v1 j) role).at v1 (record { at = refl })).at)
          ∙ h1 in
        elim (Bool-cases (is_off S (at (str "Sync") info))) [
          | inl off ↦
              let off' = sym (ap (is_off S) (store_at v h (str "Sync") info e)) ∙ off in
              rw off (Ensures-pure d (record { entry = rw off' refl; room = λ r. r }, h1))
          | inr on ↦
              let on' = sym (ap (is_off S) (store_at v h (str "Sync") info e)) ∙ on in
              rw on (
                reporting-bind S channel _ _ _ _ λ membership f.
                  reporting-bind S channel _ _ _ _ λ again g.
                    let inside : contains (range membership) user ≡ lets_in S (L.view w) user role =
                      T.contains-range membership user
                      ∙ role_membership-decides S L T role user v1 membership f
                      ∙ ap (λ s. lets_in S s user role) h1 in
                    let name : at (str "Name") again ≡ or_empty (field (L.view w k) (str "Name")) =
                      store_at v2 h2 (str "Name") again g in
                    let kept : L.view (find_role S role v2).1 ≡ L.view w =
                      fun_ext (λ j.
                        ((find_role-Keeps S L j (L.view v2 j) role).at v2
                          (record { at = refl })).at)
                      ∙ h2 in
                    Ensures-pure _ (
                      record {
                        entry =
                            planned-give_role (at (str "Name") again) user y (range membership) d
                            ∙ ap₂
                                (λ (c : Bool) (n : Str).
                                  (not (is_empty user) && c && (not (is_empty n) && n =? y))
                                  || planned S T d user y)
                                inside name
                            ∙ same_name user _ y _ _
                            ∙ rw on' refl;
                        room = is_some-give_role _ user (range membership) d;
                      },
                      kept,
                    ))
        ]

    -- What the loop over the roles adds to the user's entry.
    pub record Granted (roles : List Str) (d d' : Dict StringSet) : Type 0 where
      pub entry : planned S T d' user y ≡ (grants S (L.view w) user y roles || planned S T d user y)
      pub room : is_some (lookup user d) ≡ true → is_some (lookup user d') ≡ true

    pub gather_roles-Granted :
        (channel : Str) (roles : List Str) (d : Dict StringSet) (v : S.World)
        → L.view v ≡ L.view w
        → Ensures (fold_each (gather_role S channel) roles d) v (λ d' _. Granted roles d d')
    unfolding fold_each
    gather_roles-Granted channel [] d v h = Ensures-pure d (record { entry = refl; room = λ r. r })
    gather_roles-Granted channel (r ∷ rs) d v h = >>=-Ensures _ _ λ d1 e.
        let (one, kept) = (gather_role-Round channel r d v h).holds d1 e in
        record {
          holds = λ d' f.
              let rest = (gather_roles-Granted channel rs d1 _ kept).holds d' f in
              record {
                entry = rest.entry ∙ ground (arith, one.entry);
                room = λ q. rest.room (one.room q);
              };
        }
