-- ===== src/Handler/Roles/Add.antt =====
-- AddRole: what it checks, what it writes, and the way back through GetRole.
use role_srv.Base.{
  ℕ, Str, str, ◌=?◌, is_empty, ◌≡◌, ◌≢◌, arith, refl, ap, ◌∙◌, true, false, ok, err, ◌==◌, ◌⊎◌, inl,
  inr, lookup, not, ◌&&◌, Option, some, none, Ensures, >>=-Ensures, require-Ensures, Ensures-pure,
  Keeps, keeps_rules, contains, Leaves, >>=-Leaves, require-Leaves, is_ok, Result, panic, when-ok,
  =?-eq, Bool-cases, require-last, if◌then◌else◌,
}
use role_srv.Proto.{Role}
use role_srv.Redis.{RedisLaws, present, absent, text, hash, members, Entry, field, or_else}
use role_srv.Redis.Frames.{Holds, redis_frames}
use role_srv.Services.{Services}
use role_srv.Handler.Keys.{role_key, description_key, role_types, valid_list_item}
use role_srv.Handler.Roles.{add_role, check_role}

-- A role that AddRole accepts.
pub record IsValid (r : Role) : Type 0 where
  pub typed : contains role_types r.type ≡ true
  pub type_given : is_empty r.type ≡ false
  pub short_name_given : is_empty r.short_name ≡ false
  pub name_given : is_empty r.name ≡ false
  pub filter_a_given : is_empty r.filter_a ≡ false
  pub filter_b_given : is_empty r.filter_b ≡ false

check_role-IsValid :
    {W : Type 0} (r : Role) (w : W) → Ensures (check_role r) w (λ _ w'. IsValid r × (w' ≡ w))
unfolding check_role valid_list_item
check_role-IsValid r w = require-Ensures _ _ _ λ a. require-Ensures _ _ _ λ b.
    require-Ensures _ _ _ λ c. require-Ensures _ _ _ λ d. require-Ensures _ _ _ λ e.
      require-last _ _ λ f. (
        record {
          typed = f;
          type_given = ground arith;
          short_name_given = ground arith;
          name_given = ground arith;
          filter_a_given = ground arith;
          filter_b_given = ground arith;
        },
        refl,
      )

check_role-Keeps : {W : Type 0} {P : W → Type 0} (r : Role) → Keeps P (check_role r)
unfolding check_role
check_role-Keeps r = search keeps_rules depth 20

not_ok {ℓ} : {A : Type ℓ} (r : Result A) → ((a : A) → r ≡ ok a → ⊥) → is_ok r ≡ false
not_ok (ok a) h = absurd (h a refl)
not_ok (err e) h = refl
not_ok panic h = refl

stored_fresh :
    (o : Option Str) (f : Str) (e : Entry) → present e ≡ false → or_else o (field e f) ≡ o
stored_fresh none f absent h = refl
stored_fresh (some v) f absent h = refl
stored_fresh o f (text s) h = cc
stored_fresh o f (hash m) h = cc
stored_fresh o f (members m) h = cc

module _ (S : Services) (L : RedisLaws S.redis) where
  -- The filter is described in the store, or it is the wildcard.
  abbrev pub HasFilter : S.World → Str → Type 0
  HasFilter w f = (present (L.view w (description_key S f)) ≡ true) ⊎ (f ≡ str "wildcard")

  -- What a successful AddRole says of the worlds before and after it.
  pub record Added (r : Role) (w w' : S.World) : Type 0 where
    pub valid : IsValid r
    pub fresh : present (L.view w (role_key S r.short_name)) ≡ false
    pub first : HasFilter w r.filter_a
    pub second : HasFilter w r.filter_b
    pub stored :
        (f : Str) → field (L.view w' (role_key S r.short_name)) f ≡ lookup f (S.structs_map r)
    pub there : present (L.view w' (role_key S r.short_name)) ≡ true

  -- The test that both filters pass.
  filter_test :
      (n : ℕ) (f : Str) (w : S.World)
      → n ≡ (if present (L.view w (description_key S f)) then 1 else 0)
      → not (n == 0 && not (f =? str "wildcard")) ≡ true
      → HasFilter w f
  filter_test n f w e h = elim (Bool-cases (present (L.view w (description_key S f)))) [
    | inl there ↦ inl there
    | inr gone ↦ inr (=?-eq f _ (ground arith))
  ]

  open S.redis use {exists, hm_set}

  add_role-Added : (r : Role) (w : S.World) → Ensures (add_role S r) w (λ _ w'. Added r w w')
  unfolding add_role
  add_role-Added r w =
      let k = role_key S r.short_name in
      let d = S.structs_map r in
      >>=-Ensures _ _ λ _ v. >>=-Ensures _ _ λ n e. require-Ensures _ _ _ λ free.
        >>=-Ensures _ _ λ a ea. require-Ensures _ _ _ λ ta. >>=-Ensures _ _ λ b eb.
          require-Ensures _ _ _ λ tb. >>=-Ensures _ _ λ _ done.
            let (valid, w1) = (check_role-IsValid r w).holds _ v in
            let same1 = λ (j : Str). ap (λ x. L.view x j) w1 in
            let same2 = λ (j : Str). L.exists_frame k _ j ∙ same1 j in
            let same3 = λ (j : Str). L.exists_frame (description_key S r.filter_a) _ j ∙ same2 j in
            let same4 = λ (j : Str). L.exists_frame (description_key S r.filter_b) _ j ∙ same3 j in
            let fresh : present (L.view w k) ≡ false =
              ground (arith, when-ok _ _ _ (L.exists_ok k _) e, same1 k) in
            Ensures-pure _ (record {
              valid = valid;
              fresh = fresh;
              first =
                  filter_test a r.filter_a w
                    (rw (← same2 (description_key S r.filter_a))
                      (when-ok _ _ _ (L.exists_ok _ _) ea))
                    ta;
              second =
                  filter_test b r.filter_b w
                    (rw (← same3 (description_key S r.filter_b))
                      (when-ok _ _ _ (L.exists_ok _ _) eb))
                    tb;
              stored = λ f.
                  when-ok _ _ _ (L.hm_set_ok k d _ f) done
                  ∙ stored_fresh (lookup f d) f _ (ap present (same4 k) ∙ fresh);
              there = when-ok _ _ _ (L.hm_set_present k d _) done;
            })

  -- AddRole succeeds only for a role with a known type and with every required field, whose key was
  -- free and whose filters are described or the wildcard. Then the role's key holds exactly the
  -- fields of the request.
  pub add_role-creates :
      (r : Role) (w : S.World) → (add_role S r w).0 ≡ ok tt → Added r w (add_role S r w).1
  add_role-creates r w h = (add_role-Added r w).holds tt h

  add_role-Keeps :
      (j : Str) (e : Entry) (r : Role)
      → j ≢ role_key S r.short_name
      → Keeps (Holds S.redis L j e) (add_role S r)
  unfolding add_role check_role
  add_role-Keeps j e r n = search redis_frames depth 30

  -- Whatever AddRole replies, it changes no key but that of the role.
  pub add_role-frame :
      (r : Role) (w : S.World) (j : Str)
      → j ≢ role_key S r.short_name
      → L.view (add_role S r w).1 j ≡ L.view w j
  add_role-frame r w j n = ((add_role-Keeps j (L.view w j) r n).at w (record { at = refl })).at

  exists_one :
      (n : ℕ) (e : Entry)
      → n ≡ (if present e then 1 else 0)
      → present e ≡ true
      → not (n == 1) ≡ false
  exists_one n e p h = ground arith

  add_role-Leaves :
      (r : Role) (w : S.World)
      → present (L.view w (role_key S r.short_name)) ≡ true
      → Leaves
          (add_role S r)
          w
          (λ _ _. ⊥)
          (λ w'. L.view w' (role_key S r.short_name) ≡ L.view w (role_key S r.short_name))
  unfolding add_role
  add_role-Leaves r w h =
      let k = role_key S r.short_name in
      >>=-Leaves _ _
        (λ _ v.
          let same = ap (λ x. L.view x k) ((check_role-IsValid r w).holds _ v).1 in
          >>=-Leaves _ _
            (λ n e.
              require-Leaves _ _ _
                (λ free. absurd (
                  ground (
                    arith,
                    exists_one n (L.view (check_role r w).1 k) (when-ok _ _ _ (L.exists_ok k _) e),
                    same,
                  )))
                (L.exists_frame k _ k ∙ same))
            (L.exists_frame k _ k ∙ same))
        ((check_role-Keeps {P = λ w'. L.view w' k ≡ L.view w k} r).at w refl)

  -- AddRole never succeeds for a role that is there, and never changes it.
  pub add_role-keeps_existing :
      (r : Role) (w : S.World)
      → present (L.view w (role_key S r.short_name)) ≡ true
      → (is_ok (add_role S r w).0 ≡ false)
        × (L.view (add_role S r w).1 (role_key S r.short_name) ≡ L.view w (role_key S r.short_name))
  add_role-keeps_existing r w h =
      let l = add_role-Leaves r w h in
      let failed = not_ok (add_role S r w).0 l.success in (failed, l.failure failed)
