-- ===== src/Handler/Membership/Who.antt =====
-- Who has a role: getRoleMembership against the filters of the store.
use role_srv.Base.{
  List, Str, str, ◌=?◌, is_empty, ◌≡◌, ap, ◌∙◌, Bool, not, ◌&&◌, ok, contains, when-ok, Ensures,
  >>=-Ensures, require-Ensures, Ensures-pure, arith, Bool-cases, inl, inr, if◌then◌else◌, or_empty,
  at,
}
use role_srv.StringSets.{StringSetLaws}
use role_srv.Redis.{RedisLaws, field, has}
use role_srv.Services.{Services}
use role_srv.Handler.Keys.{role_key, members_key}
use role_srv.Handler.Membership.{single_filter, both_filters, filters_membership, role_membership}

-- The rule for a user that is in the filters as the two flags say.
abbrev pub fits : Str → Str → Str → Bool → Bool → Bool
fits a b user in_a in_b =
    not (is_empty user)
    && (if b =? str "wildcard" then in_a else if a =? str "wildcard" then in_b else in_a && in_b)

module _ (S : Services) (L : RedisLaws S.redis) (T : StringSetLaws S.sets) where
  open S use {World}

  -- The user is a member of the filter.
  abbrev pub in_filter : World → Str → Str → Bool
  in_filter w f user = has (L.view w (members_key S f)) user

  -- The rule: of two filters a user must be in both, but a wildcard holds for everyone. A wildcard as
  -- filter B decides before one as filter A. The empty string is no user.
  abbrev pub fits_filters : World → Str → Str → Str → Bool
  fits_filters w a b user = fits a b user (in_filter w a user) (in_filter w b user)

  -- A filter of a role, as the role's key holds it.
  abbrev pub filter_of : World → Str → Str → Str
  filter_of w role f = or_empty (field (L.view w (role_key S role)) f)

  from_new :
      (xs : List Str) (user : Str) (b : Bool)
      → contains xs user ≡ b
      → S.sets.has (S.sets.from_slice xs S.sets.new) user ≡ (not (is_empty user) && b)
  from_new xs user b e = ground (arith, T.has-from_slice xs user S.sets.new, T.has-new user)

  single_filter-has :
      (f user : Str) (w : World)
      → Ensures
          (single_filter S f)
          w
          (λ s _. S.sets.has s user ≡ (not (is_empty user) && in_filter w f user))
  unfolding single_filter
  single_filter-has f user w = >>=-Ensures _ _ λ n e. require-Ensures _ _ _ λ there.
      >>=-Ensures _ _ λ xs read. Ensures-pure _ (
        from_new xs user _ (
          when-ok _ _ _ (L.s_members_ok _ _ user) read
          ∙ ap (λ v. has v user) (L.exists_frame _ w (members_key S f))))

  both_filters-has :
      (a b user : Str) (w : World)
      → Ensures (both_filters S a b) w (λ s _.
        S.sets.has s user ≡ (not (is_empty user) && (in_filter w a user && in_filter w b user)))
  unfolding both_filters
  both_filters-has a b user w =
      >>=-Ensures _ _ λ xs read.
        Ensures-pure _ (from_new xs user _ (when-ok _ _ _ (L.s_inter_ok _ _ w user) read))

  filters_membership-has :
      (a b user : Str) (w : World)
      → Ensures (filters_membership S a b) w (λ s _. S.sets.has s user ≡ fits_filters w a b user)
  unfolding filters_membership
  filters_membership-has a b user w = elim (Bool-cases (b =? str "wildcard")) [
    | inl e ↦ rw e (single_filter-has a user w)
    | inr e ↦ rw e (elim (Bool-cases (a =? str "wildcard")) [
      | inl f ↦ rw f (single_filter-has b user w)
      | inr f ↦ rw f (both_filters-has a b user w)
    ])
  ]

  role_membership-Ensures :
      (role user : Str) (w : World)
      → Ensures (role_membership S role) w (λ s _.
        S.sets.has s user
        ≡ fits_filters w (filter_of w role (str "FilterA")) (filter_of w role (str "FilterB")) user)
  unfolding role_membership at
  role_membership-Ensures role user w = >>=-Ensures _ _ λ r e.
      let w' = (S.redis.h_get_all (role_key S role) w).1 in
      let filter =
        λ (f : Str). ap or_empty (when-ok _ _ _ (L.h_get_all_ok (role_key S role) w f) e) in
      let inside = λ (f : Str).
        ap (λ v. has v user) (L.h_get_all_frame (role_key S role) w (members_key S f)) in
      record {
        holds = λ s h.
            (filters_membership-has (at (str "FilterA") r) (at (str "FilterB") r) user w').holds s h
            ∙ cc (
              inside (at (str "FilterA") r),
              inside (at (str "FilterB") r),
              filter (str "FilterA"),
              filter (str "FilterB"),
            );
      }

  -- A user has a role exactly if the role's two filters, as the store holds them, let the user in.
  pub role_membership-decides :
      (role user : Str) (w : World) (s : S.sets.StringSet)
      → (role_membership S role w).0 ≡ ok s
      → S.sets.has s user
        ≡ fits_filters w (filter_of w role (str "FilterA")) (filter_of w role (str "FilterB")) user
  role_membership-decides role user w s h = (role_membership-Ensures role user w).holds s h
