-- ===== src/Handler/Setup/Filled.antt =====
-- What updateSchema leaves where Redis replies: every role has a Sync.
use role_srv.Base.{
  dropped-world, continue, ◌≡◌, ◌∙◌, refl, sym, ap, subst, arith, true, false, List, [], ◌∷◌, Str,
  str, ◌=?◌, =?-eq, =?-refl, is_empty, or_empty, at, contains, Exec, Result, ok, err, panic, pure,
  is_ok, ◌>>=◌, when-ok, when-is_ok, attempt-bind, is_ok-ne-panic, ok-bind, Keeps-for_each,
  for_each, some, Bool-cases, inl, inr, if◌then◌else◌,
}
use role_srv.Base.Text.Split.{Lacks}
use role_srv.Handler.Roles.Names.{role_names_complete}
use role_srv.Redis.{present, RedisLaws, field}
use role_srv.Services.{Services}
use role_srv.Handler.Keys.{role_key}
use role_srv.Handler.Roles.{role_names}
use role_srv.Handler.Setup.{default_sync, update_schema}
use role_srv.Handler.Setup.Schema.{IsSettled, default_sync-Keeps}

value_of {ℓ} : {A : Type ℓ} (r : Result A) → is_ok r ≡ true → (a : A) × (r ≡ ok a)
value_of (ok a) h = (a, refl)
value_of (err e) h = cc
value_of panic h = cc

empty_of : (s : Str) → (s =? []) ≡ false → is_empty s ≡ false
unfolding ◌=?◌
empty_of [] h = cc
empty_of (c ∷ s) h = refl

one_is_given : is_empty (str "1") ≡ false
unfolding str
one_is_given = refl

pure-world {ℓ} :
    {W A B : Type ℓ} (r : Result A) (w : W) (f : A → B) → (continue r (λ a. pure (f a)) w).1 ≡ w
unfolding pure
pure-world (ok a) w f = refl
pure-world (err e) w f = refl
pure-world panic w f = refl

-- A loop behind a round that succeeded.
for_each-world {ℓ} :
    {W A B : Type ℓ} (f : A → Exec W B) (x : A) (xs : List A) (w : W) (y : B)
    → (f x w).0 ≡ ok y
    → (for_each f (x ∷ xs) w).1 ≡ (for_each f xs (f x w).1).1
unfolding for_each ◌>>=◌
for_each-world f x xs w y e =
    ap (λ (r : _). r.1) (ok-bind (f x) _ w y e) ∙ pure-world (for_each f xs (f x w).1).0 _ _

module _ (S : Services) (L : RedisLaws S.redis) where
  open S.redis use {h_get_all, h_set}

  -- The text of a role's Sync is not empty.
  abbrev pub HasSync : S.World → Str → Type 0
  HasSync w n = is_empty (or_empty (field (L.view w (role_key S n)) (str "Sync"))) ≡ false

  -- The HGETALL of each role replies, and so would an HSET behind it.
  abbrev pub AllReply : List Str → S.World → Type 0
  AllReply [] w = Unit
  AllReply (n ∷ ns) w =
      let k = role_key S n in
      (is_ok (h_get_all k w).0 ≡ true)
      × (is_ok (h_set k (str "Sync") (str "1") (h_get_all k w).1).0 ≡ true)
      × AllReply ns (default_sync S n w).1

  default_sync-HasSync :
      (n : Str) (w : S.World)
      → is_ok (h_get_all (role_key S n) w).0 ≡ true
      → is_ok (h_set (role_key S n) (str "Sync") (str "1") (h_get_all (role_key S n) w).1).0 ≡ true
      → ((default_sync S n w).0 ≡ ok tt) × HasSync (default_sync S n w).1 n
  unfolding default_sync pure at
  default_sync-HasSync n w read written =
      let k = role_key S n in
      let (info, e) = value_of (h_get_all k w).0 read in
      subst (λ r. (r.0 ≡ ok tt) × HasSync r.1 n) (sym (ok-bind (h_get_all k) _ w info e))
        (elim (Bool-cases (at (str "Sync") info =? [])) [
          | inl missing ↦ rw missing (
              subst (λ r. (r.0 ≡ ok tt) × HasSync r.1 n)
                (sym (attempt-bind (h_set k (str "Sync") (str "1")) _ _ (is_ok-ne-panic _ written)))
                (
                  refl,
                  ap (λ o. is_empty (or_empty o))
                        (when-is_ok _ _ _ written
                            (L.h_set_ok k (str "Sync") (str "1") _ (str "Sync"))
                          ∙ ap
                              (λ b.
                                if b
                                then some (str "1")
                                else field (L.view (h_get_all k w).1 k) (str "Sync"))
                              (=?-refl (str "Sync")))
                      ∙ one_is_given,
                ))
          | inr there ↦ rw there (
            refl,
            ap (λ v. is_empty (or_empty (field v (str "Sync")))) (L.h_get_all_frame k w k)
                ∙ ap (λ o. is_empty (or_empty o))
                    (sym (when-ok _ _ _ (L.h_get_all_ok k w (str "Sync")) e))
                ∙ empty_of _ there,
          )
        ])

  -- A Sync that is there stays.
  loop-HasSync :
      (name : Str) (ns : List Str) (w : S.World)
      → HasSync w name
      → HasSync (for_each (default_sync S) ns w).1 name
  loop-HasSync name ns w h =
      let j = role_key S name in
      let e = L.view w j in
      let settled : IsSettled S L j e = λ n q. h in
      let kept =
        ((Keeps-for_each (default_sync S) ns (default_sync-Keeps S L j e settled)).at w
          (record { at = refl })).at in
      ap (λ v. is_empty (or_empty (field v (str "Sync")))) kept ∙ h

  loop-fills :
      (name : Str) (ns : List Str) (w : S.World)
      → AllReply ns w
      → contains ns name ≡ true
      → HasSync (for_each (default_sync S) ns w).1 name
  unfolding contains
  loop-fills name [] w h within = cc
  loop-fills name (n ∷ ns) w (read, written, rest) within =
      let (done, filled) = default_sync-HasSync n w read written in
      subst (λ v. HasSync v name) (sym (for_each-world (default_sync S) n ns w tt done))
        (elim (Bool-cases (n =? name)) [
          | inl same ↦
              let q = =?-eq n name same in
              loop-HasSync name ns _ (subst (HasSync (default_sync S n w).1) q filled)
          | inr other ↦ loop-fills name ns _ rest (ground (arith, within))
        ])

  -- Where Redis replies to the commands of updateSchema, every role of the store whose name has no
  -- colon has a Sync afterwards that is not empty.
  pub update_schema-fills :
      (w : S.World) (names : List Str) (name : Str)
      → (role_names S w).0 ≡ ok names
      → AllReply names (role_names S w).1
      → Lacks b':' name
      → present (L.view w (role_key S name)) ≡ true
      → HasSync (update_schema S w).1 name
  unfolding update_schema
  update_schema-fills w names name listed replied lacks there =
      let loop = λ (ns : List Str). for_each (default_sync S) ns in
      let within = role_names_complete S L name w names lacks there listed in
      subst (λ v. HasSync v name) (sym (dropped-world (role_names S >>= loop) w))
        (subst (λ r. HasSync r.1 name) (sym (ok-bind (role_names S) loop w names listed))
          (loop-fills name names (role_names S w).1 replied within))
