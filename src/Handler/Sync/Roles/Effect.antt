-- ===== src/Handler/Sync/Roles/Effect.antt =====
-- What syncRoles makes of the roles of Discord.
use role_srv.Base.{
  ◌≡◌, ◌∙◌, refl, ap, fun_ext, arith, Bool, false, not, ◌&&◌, ◌||◌, List, [], ◌∷◌, Str, str, ◌=?◌,
  =?_iff, is_empty, or_empty, at, ok, fold_each, Ensures, >>=-Ensures, Ensures-pure, when-ok,
  Bool-cases, inl, inr, if◌then◌else◌,
}
use role_srv.Redis.{RedisLaws, Entry, field}
use role_srv.StringSets.{StringSetLaws}
use role_srv.Services.{Services}
use role_srv.Handler.Keys.{role_key}
use role_srv.Handler.Roles.{role_names}
use role_srv.Handler.Sync.Report.Success.{reporting-bind}
use role_srv.Handler.Sync.Roles.{Wanted, gather_role, apply_roles, sync_roles, discord_names}
use role_srv.Handler.Sync.Roles.Differences.{ignored, has-discord_names}
use role_srv.Handler.Sync.Roles.Discord.{DiscordLaws}
use role_srv.Handler.Sync.Roles.Loops.{create_roles, delete_roles, edit_roles}

-- Whether Discord has a role behind a synchronisation: whether the store wants it, whether Discord
-- had it, and whether the synchronisation passed it over in the list of roles.
abbrev pub settled_role : Bool → Bool → Bool → Bool
settled_role wants before passed_over =
    if wants then before || passed_over else before && passed_over

-- The three differences together.
settled :
    (after before wanted there listed ignored wants : Bool)
    → wanted ≡ wants
    → there ≡ (listed && not ignored)
    → after ≡ (not (there && not wanted) && ((wanted && not there) || before))
    → after ≡ settled_role wants before (ignored || not listed)
settled after before wanted there listed ignored wants e f g = ground arith

-- The values of Sync that turn a role on.
abbrev pub is_on : Str → Bool
is_on sync = sync =? str "1" || sync =? str "true"

module _ (S : Services) (L : RedisLaws S.redis) (T : StringSetLaws S.sets) (D : DiscordLaws S) where
  -- A field of a role in a store.
  abbrev pub role_field : (Str → Entry) → Str → Str → Str
  role_field v name f = or_empty (field (v (role_key S name)) f)

  -- The store wants a role named `x`: one of its roles is on and has that name.
  abbrev pub wants : (Str → Entry) → List Str → Str → Bool
  wants v [] x = false
  wants v (n ∷ ns) x =
      (is_on (role_field v n (str "Sync")) && role_field v n (str "Name") =? x) || wants v ns x

  -- Discord has the role behind a synchronisation that begins in a world. A role is passed over
  -- that is protected, or that the list of roles leaves out.
  abbrev pub is_there_after : S.World → List Str → Str → Bool
  is_there_after w names x =
      settled_role (wants (L.view w) names x) (D.there w x) (ignored S T x || not (D.listed w x))

  -- The store, Discord and its list are as they were.
  abbrev pub Unchanged : S.World → S.World → Type 0
  Unchanged w w' = (L.view w' ≡ L.view w) × (D.there w' ≡ D.there w) × (D.listed w' ≡ D.listed w)

  gather_role-Ensures :
      (channel role : Str) (r : Wanted S) (w : S.World)
      → Ensures (gather_role S channel role r) w (λ r' w'.
        ((x : Str)
          → S.sets.has r'.names x
            ≡ ((not (is_empty x) && wants (L.view w) (role ∷ []) x) || S.sets.has r.names x))
        × Unchanged w w')
  unfolding gather_role at
  gather_role-Ensures channel role r w = reporting-bind S channel _ _ _ w λ c e.
      let k = role_key S role in
      let read = λ (f : Str). ap or_empty (when-ok _ _ _ (L.h_get_all_ok k w f) e) in
      let same : Unchanged w (S.redis.h_get_all k w).1 = (
        fun_ext (L.h_get_all_frame k w),
        fun_ext (D.h_get_all_frame k w),
        fun_ext (D.h_get_all_listed k w),
      ) in
      elim (Bool-cases (is_on (at (str "Sync") c))) [
        | inl t ↦ rw t (
            Ensures-pure _ (
              λ x. ground (
                arith,
                read (str "Sync"),
                read (str "Name"),
                T.has-add (at (str "Name") c) x r.names,
                =?_iff (at (str "Name") c) x,
              ),
              same,
            ))
        | inr t ↦ rw t (Ensures-pure _ (λ x. ground (arith, read (str "Sync")), same))
      ]

  pub gather_roles :
      (channel : Str) (ns : List Str) (r : Wanted S) (w : S.World)
      → Ensures (fold_each (gather_role S channel) ns r) w (λ r' w'.
        ((x : Str)
          → S.sets.has r'.names x
            ≡ ((not (is_empty x) && wants (L.view w) ns x) || S.sets.has r.names x))
        × Unchanged w w')
  unfolding fold_each
  gather_roles channel [] r w = Ensures-pure r (λ x. ground arith, (refl, refl, refl))
  gather_roles channel (n ∷ ns) r w = >>=-Ensures _ _ λ r' e. record {
    holds = λ r'' f.
        let (names, same) = (gather_role-Ensures channel n r w).holds r' e in
        let (more, still) = (gather_roles channel ns r' _).holds r'' f in
        (
          λ x. ground (arith, names x, ap (λ v. wants v ns x) same.0, more x),
          (still.0 ∙ same.0, still.1 ∙ same.1, still.2 ∙ same.2),
        );
  }

  pub role_names-Ensures : (w : S.World) → Ensures (role_names S) w (λ _ w'. Unchanged w w')
  unfolding role_names
  role_names-Ensures w = >>=-Ensures _ _ λ ks e.
      Ensures-pure _
        (fun_ext (L.keys_frame _ w), fun_ext (D.keys_frame _ w), fun_ext (D.keys_listed _ w))

  apply_roles-Ensures :
      (channel : Str) (wanted : Wanted S) (there : S.sets.StringSet) (w : S.World)
      → Ensures (apply_roles S channel wanted there) w (λ _ w'.
        (x : Str)
        → let has = S.sets.has in
          D.there w' x ≡ (
            not (has there x && not (has wanted.names x))
            && ((has wanted.names x && not (has there x)) || D.there w x)))
  unfolding apply_roles
  apply_roles-Ensures channel wanted there w = >>=-Ensures _ _ λ a e. >>=-Ensures _ _ λ b f.
      >>=-Ensures _ _ λ c g. Ensures-pure _ (λ x.
        let add = S.sets.difference wanted.names there in
        let delete = S.sets.difference there wanted.names in
        ground (
          arith,
          (edit_roles S D channel wanted.infos _ _).holds c g x,
          (delete_roles S D channel _ _).holds b f x,
          (create_roles S D channel _ w).holds a e x,
          T.contains-range add x,
          T.contains-range delete x,
          T.has-difference wanted.names there x,
          T.has-difference there wanted.names x,
        ))

  sync_roles-Ensures :
      (channel : Str) (w : S.World) (names : List Str)
      → (role_names S w).0 ≡ ok names
      → Ensures
          (sync_roles S channel)
          w
          (λ _ w'. (x : Str) → is_empty x ≡ false → D.there w' x ≡ is_there_after w names x)
  unfolding sync_roles
  sync_roles-Ensures channel w names h = reporting-bind S channel _ _ _ w λ ns e.
      >>=-Ensures _ _ λ wanted f. reporting-bind S channel _ _ _ _ λ roles g. record {
        holds = λ a k x given.
            let same_names : ns ≡ names = cc in
            let same = (role_names-Ensures w).holds ns e in
            let (gathered, still) = (gather_roles channel ns _ _).holds wanted f in
            let applied = (apply_roles-Ensures channel wanted _ _).holds a k x in
            let before : D.there (fold_each (gather_role S channel) ns _ _).1 x ≡ D.there w x =
              ap (λ d. d x) (still.1 ∙ same.1) in
            let seen : D.listed (fold_each (gather_role S channel) ns _ _).1 x ≡ D.listed w x =
              ap (λ d. d x) (still.2 ∙ same.2) in
            let hw : S.sets.has wanted.names x ≡ wants (L.view w) names x =
              gathered x
              ∙ ground (
                arith,
                T.has-new x,
                ap (λ v. wants v ns x) same.0,
                ap (λ l. wants (L.view w) l x) same_names,
              ) in
            let hd : S.sets.has (discord_names S roles S.sets.new) x
                ≡ (D.listed w x && not (ignored S T x)) =
              has-discord_names S T roles S.sets.new x
              ∙ ground (arith, T.has-new x, when-ok _ _ _ (D.get_all_roles_ok _ x) g, seen) in
            settled _ _ _ _ _ _ _ hw hd (
              applied
              ∙ ap
                  (λ b.
                    let there = S.sets.has (discord_names S roles S.sets.new) x in
                    let wants_it = S.sets.has wanted.names x in
                    not (there && not wants_it) && ((wants_it && not there) || b))
                  (D.get_all_roles_frame _ x ∙ before));
      }

  -- After a synchronisation of the roles that succeeded, Discord has a role that the store wants,
  -- unless GetAllRoles listed the role while Discord did not have it and it is not protected. It has
  -- a role that the store does not want exactly if it had it before and the role is protected or was
  -- not in the list. The store wants a role that is on, by its Name; the roles of the store are those
  -- that getRoles lists, and no role has the empty name.
  pub sync_roles-makes :
      (channel : Str) (w : S.World) (names : List Str) (x : Str)
      → is_empty x ≡ false
      → (role_names S w).0 ≡ ok names
      → (sync_roles S channel w).0 ≡ ok tt
      → D.there (sync_roles S channel w).1 x ≡ is_there_after w names x
  sync_roles-makes channel w names x given h k =
      (sync_roles-Ensures channel w names h).holds tt k x given
