-- ===== src/Client/Joined.antt =====
-- JoinSIG and LeaveSIG over the handlers: what they do to the members of the SIG's filter.
use role_srv.Base.{
  ◌≡◌, ◌∙◌, sym, ap, subst, refl, arith, Bool, true, false, not, ◌&&◌, ◌||◌, Str, str, [], ◌∷◌,
  ◌++◌, ◌=?◌, Exec, ok, attempt-bind, is_ok, is_ok-ne-panic, or_empty, ◌>>=◌, if◌then◌else◌,
  Ensures,
}
use role_srv.Base.Text.Split.{Lacks, split-two}
use role_srv.Strconv.{parse_bool}
use role_srv.Proto.{Role, zero_role, SyncRequest, Members}
use role_srv.Redis.{RedisLaws, has, field}
use role_srv.Redis.Frames.{Holds}
use role_srv.Services.{Services}
use role_srv.Handler.Keys.{role_key, members_key}
use role_srv.Handler.Roles.{get_role}
use role_srv.Handler.Reads.{get_role-Keeps}
use role_srv.Handler.Filters.{add_members, remove_members}
use role_srv.Handler.Filters.One.{add_members-Ensures_one, remove_members-Ensures_one}
use role_srv.Client.Services.{ClientServices, sync_after}
use role_srv.Client.Sigs.{
  or_error, or_error_reply, sig_reply, sender_user, change_member, sig_change, sig_action,
}
use role_srv.Client.Sigs.Keeping.{sig_rest-Keeps}
use role_srv.Client.Guarded.{Front, client, flag, allows, get_role-flags}
use role_srv.Client.Confined.{Apart, filter_of, get_role-filter, handler-After}
use role_srv.Stub.{Transport, service_name, new_roles_service, register_roles_handler}
use role_srv.Stub.Served.{roles_handler, Delivers, new_roles_service-roles_handler}

module _ (C : ClientServices) where
  -- A call that succeeds is followed by what comes next.
  or_error_ok :
      {A : Type 0} (m : Exec C.World A) (next : A → Exec C.World Str) (w : C.World) (a : A)
      → (m w).0 ≡ ok a
      → or_error C m next w ≡ next a (m w).1
  unfolding or_error
  or_error_ok m next w a e =
      attempt-bind m _ w (is_ok-ne-panic _ (ap is_ok e))
      ∙ ap (λ r. or_error_reply C next r (m w).1) e

  change_member_lem :
      (channel user : Str) (role : Role) (join : Bool) (w : C.World)
      → Lacks b':' channel
      → Lacks b':' user
      → change_member C (channel ++ b':' ∷ user) role join w
        ≡ (if join
              then C.roles.add_members (record { name = user ∷ []; filter = role.filter_b })
              else C.roles.remove_members (record { name = user ∷ []; filter = role.filter_b }))
            w
  unfolding change_member sender_user ◌>>=◌
  change_member_lem channel user role join w a b = rw (split-two channel b':' user a b) refl

module _ (S : Services) where
  -- The request that the two commands make for a user and a filter.
  abbrev pub change : Bool → Str → Str → Exec S.World (Unit {0})
  change join user filter =
      let m : Members = record { name = user ∷ []; filter = filter } in
      if join then add_members S m else remove_members S m

  -- The users of a filter, from those before.
  abbrev pub joined : Bool → Str → (Str → Bool) → Str → Bool
  joined join user before y = if join then user =? y || before y else not (user =? y) && before y

module _ (S : Services) (L : RedisLaws S.redis) where
  change-Ensures :
      (join : Bool) (user filter y : Str) (w : S.World)
      → Ensures (change S join user filter) w (λ _ v.
        has (L.view v (members_key S filter)) y
        ≡ joined S join user (has (L.view w (members_key S filter))) y)
  change-Ensures true user filter y w = add_members-Ensures_one S L user filter y w
  change-Ensures false user filter y w = remove_members-Ensures_one S L user filter y w

  module _ (F : Front S.World) (send : SyncRequest → Exec S.World (Unit {0}))
      (channel user sig : Str) (join joinable : Bool) (w : S.World) where
    abbrev asked : Role
    asked = record zero_role { short_name = sig }

    -- GetRole is answered twice, and then the change of the filter is accepted.
    pub record Accepted : Type 0 where
      pub first : Role
      pub second : Role
      pub first_read : (get_role S asked w).0 ≡ ok first
      pub second_read : (get_role S asked (get_role S asked w).1).0 ≡ ok second
      pub changed :
          (change S join user (filter_of S L w sig) (get_role S asked (get_role S asked w).1).1).0
          ≡ ok tt

    kept : (j : Str) (v : S.World) → L.view (get_role S asked v).1 j ≡ L.view v j
    kept j v = ((get_role-Keeps S L j (L.view v j) asked).at v (record { at = refl })).at

    first_flag : (a : Accepted) → allows S L w sig joinable ≡ true → a.first.sig ≡ true
    first_flag a h =
        let (f, _) = (get_role-flags S L sig w).holds a.first a.first_read in ground (arith, f)

    second_flag :
        (a : Accepted)
        → allows S L w sig joinable ≡ true
        → (joinable && not a.second.joinable) ≡ false
    second_flag a h =
        let (_, f) = (get_role-flags S L sig (get_role S asked w).1).holds a.second a.second_read in
        let same : flag S L (get_role S asked w).1 sig (str "Joinable")
            ≡ flag S L w sig (str "Joinable") =
          ap (λ v. parse_bool (or_empty (field v (str "Joinable")))) (kept (role_key S sig) w) in
        ground (arith, f, same)

    second_filter : (a : Accepted) → a.second.filter_b ≡ filter_of S L w sig
    second_filter a =
        (get_role-filter S L sig (get_role S asked w).1).holds a.second a.second_read
        ∙ ap (λ v. or_empty (field v (str "FilterB"))) (kept (role_key S sig) w)

    abbrev C : ClientServices
    C = client S F (roles_handler S send)

    -- The world behind the change.
    abbrev after_change : S.World
    after_change =
        (change S join user (filter_of S L w sig) (get_role S asked (get_role S asked w).1).1).1

    sig_action-rest :
        Lacks b':' channel
        → Lacks b':' user
        → (a : Accepted) → allows S L w sig joinable ≡ true
        → sig_action C (channel ++ b':' ∷ user) sig join joinable w
          ≡ or_error C
              (sync_after C (channel ++ b':' ∷ user) false)
              (λ _. sig_reply C (channel ++ b':' ∷ user) sig join)
              after_change
    unfolding sig_action sig_change roles_handler
    sig_action-rest in_channel in_user a h =
        let sender = channel ++ b':' ∷ user in
        let w1 = (get_role S asked w).1 in
        let w2 = (get_role S asked w1).1 in
        let member : change_member C sender a.second join w2
            ≡ change S join user (filter_of S L w sig) w2 =
          change_member_lem C channel user a.second join w2 in_channel in_user
          ∙ ap (λ f. change S join user f w2) (second_filter a) in
        or_error_ok C (get_role S asked) _ w a.first a.first_read
        ∙ rw (first_flag a h) (
            or_error_ok C (get_role S asked) _ w1 a.second a.second_read
            ∙ rw (second_flag a h) (
                or_error_ok C (change_member C sender a.second join) _ w2 tt
                  (ap (λ r. r.0) member ∙ a.changed)
                ∙ ap
                    (λ r.
                      or_error C (sync_after C sender false) (λ _. sig_reply C sender sig join) r.1)
                    member))

    sig_action-changes_store :
        (y : Str)
        → Lacks b':' channel
        → Lacks b':' user
        → Accepted
        → allows S L w sig joinable ≡ true
        → Apart S L F send (members_key S (filter_of S L w sig))
        → has
            (L.view
              (sig_action C (channel ++ b':' ∷ user) sig join joinable w).1
              (members_key S (filter_of S L w sig)))
            y
          ≡ joined S join user (has (L.view w (members_key S (filter_of S L w sig)))) y
    sig_action-changes_store y in_channel in_user a h p =
        let j = members_key S (filter_of S L w sig) in
        let sender = channel ++ b':' ∷ user in
        let w1 = (get_role S asked w).1 in
        let rest =
          sig_rest-Keeps C (Holds S.redis L j (L.view after_change j))
            (handler-After S L F send j (L.view after_change j) p) sender sig join in
        ap (λ r. has (L.view r.1 j) y) (sig_action-rest in_channel in_user a h)
        ∙ ap (λ e. has e y) (rest.at after_change (record { at = refl })).at
        ∙ (change-Ensures join user (filter_of S L w sig) y (get_role S asked w1).1).holds tt
            a.changed
        ∙ ap (λ e. joined S join user (has e) y) (kept j w1 ∙ kept j w)

  -- A command on a SIG that the store allows, of a client that is connected by its stub, adds the
  -- sender's user to the members of the SIG's filter B, or takes it out, and changes no other member
  -- there, if GetRole is answered twice and the change is accepted, and whatever becomes of the
  -- synchronisation and the reply. The send to the channel and the gateway's list of members are
  -- taken to leave the filter alone.
  pub sig_action-changes :
      (F : Front S.World) (send : SyncRequest → Exec S.World (Unit {0})) (T : Transport S.World)
      (name channel user sig : Str) (join joinable : Bool) (w : S.World) (y : Str)
      → Delivers T (service_name name) (register_roles_handler (roles_handler S send))
      → Lacks b':' channel
      → Lacks b':' user
      → Accepted F send channel user sig join joinable w
      → allows S L w sig joinable ≡ true
      → Apart S L F send (members_key S (filter_of S L w sig))
      → has
          (L.view
            (sig_action
              (client S F (new_roles_service T name))
              (channel ++ b':' ∷ user)
              sig
              join
              joinable
              w).1
            (members_key S (filter_of S L w sig)))
          y
        ≡ joined S join user (has (L.view w (members_key S (filter_of S L w sig)))) y
  sig_action-changes F send T name channel user sig join joinable w y d in_channel in_user a h p =
      let j = members_key S (filter_of S L w sig) in
      subst
        (λ r.
          has (L.view (sig_action (client S F r) (channel ++ b':' ∷ user) sig join joinable w).1 j)
            y
          ≡ joined S join user (has (L.view w j)) y)
        (sym (new_roles_service-roles_handler S send T name d))
        (sig_action-changes_store F send channel user sig join joinable w y in_channel in_user a h
          p)
