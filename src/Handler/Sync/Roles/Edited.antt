-- ===== src/Handler/Sync/Roles/Edited.antt =====
-- What syncRoles writes into the roles that Discord has already.
use role_srv.Base.{
  ◌≡◌, ◌∙◌, refl, sym, ap, ap₂, fun_ext, subst, arith, Bool, true, false, not, ◌&&◌, ◌||◌, List, [],
  ◌∷◌, Str, str, ◌=?◌, =?-eq, is_empty, contains, or_empty, at, lookup, lookup-insert, ok,
  fold_each, Ensures, >>=-Ensures, Ensures-pure, when-ok, if◌then◌else◌, Bool-cases, inl, inr,
}
use role_srv.Gateway.{EditRoleRequest}
use role_srv.Redis.{RedisLaws, Entry, field}
use role_srv.StringSets.{StringSetLaws}
use role_srv.Services.{Services}
use role_srv.Handler.Keys.{role_key}
use role_srv.Handler.Roles.{role_names}
use role_srv.Handler.Sync.Report.Success.{reporting-bind}
use role_srv.Handler.Sync.Roles.{
  Wanted, or_nil, edit_request, gather_role, apply_roles, sync_roles, discord_names,
}
use role_srv.Handler.Sync.Roles.Effect.{is_on, role_field, wants, gather_roles, role_names-Ensures}
use role_srv.Handler.Sync.Roles.Differences.{ignored, has-discord_names}
use role_srv.Handler.Sync.Roles.Discord.{DiscordLaws}
use role_srv.Handler.Sync.Roles.Edits.{
  EditLaws, stored_request, edit_request-stored_request, blank, nothing_sent, picked, is_wanted,
  chosen, sent, edits,
}

module _ (S : Services) (L : RedisLaws S.redis) (T : StringSetLaws S.sets) (D : DiscordLaws S) where
  -- The attributes that the store wants for the role named `x`: those of the last role that is on
  -- and has that name, or `q`.
  abbrev pub wanted_request : (Str → Entry) → List Str → Str → EditRoleRequest → EditRoleRequest
  wanted_request v [] x q = q
  wanted_request v (n ∷ ns) x q = wanted_request v ns x (
      if is_wanted (role_field S L T D v n (str "Sync")) (role_field S L T D v n (str "Name")) x
      then stored_request (field (v (role_key S n)))
      else q)

  -- A role that the store wants is sent under its own name.
  wanted_request-name :
      (v : Str → Entry) (ns : List Str) (x : Str) (q : EditRoleRequest)
      → (wants S L T D v ns x || q.name =? x) ≡ true
      → (wanted_request v ns x q).name ≡ x
  wanted_request-name v [] x q h = =?-eq q.name x h
  wanted_request-name v (n ∷ ns) x q h =
      let stored = stored_request (field (v (role_key S n))) in
      let motive = λ (b : Bool). (wanted_request v ns x (if b then stored else q)).name ≡ x in
      elim (Bool-cases (is_wanted (role_field S L T D v n (str "Sync")) stored.name x)) [
        | inl e ↦ subst motive (sym e) (wanted_request-name v ns x stored (ground (arith, e)))
        | inr e ↦ subst motive (sym e) (wanted_request-name v ns x q (ground (arith, e, h)))
      ]

  gather_role-sent :
      (channel role x : Str) (r : Wanted S) (w : S.World)
      → Ensures (gather_role S channel role r) w (λ r' w'.
        (edit_request (or_nil (lookup x r'.infos))
          ≡ wanted_request (L.view w) (role ∷ []) x (edit_request (or_nil (lookup x r.infos))))
        × (L.view w' ≡ L.view w))
  unfolding gather_role at
  gather_role-sent channel role x r w = reporting-bind S channel _ _ _ w λ c e.
      let k = role_key S role in
      let same : L.view (S.redis.h_get_all k w).1 ≡ L.view w = fun_ext (L.h_get_all_frame k w) in
      let fields = λ (f : Str). when-ok _ _ _ (L.h_get_all_ok k w f) e in
      let read = λ (f : Str). ap or_empty (fields f) in
      let stored = stored_request (field (L.view w k)) in
      let old = lookup x r.infos in
      let name = at (str "Name") c in
      let pick = λ (b : Bool). if b then stored else edit_request (or_nil old) in
      let test : is_wanted (at (str "Sync") c) name x
          ≡ is_wanted (or_empty (field (L.view w k) (str "Sync"))) stored.name x =
        ap₂ (λ s n. is_wanted s n x) (read (str "Sync")) (read (str "Name")) in
      elim (Bool-cases (is_on (at (str "Sync") c))) [
        | inl t ↦ rw t (
            Ensures-pure _ (
              ap (λ o. edit_request (or_nil o)) (lookup-insert name x c r.infos)
                  ∙ chosen (name =? x) c stored old (edit_request-stored_request c _ fields)
                  ∙ ap pick (ap (λ b. b && name =? x) (sym t) ∙ test),
              same,
            ))
        | inr t ↦ rw t (Ensures-pure _ (ap pick (ap (λ b. b && name =? x) (sym t) ∙ test), same))
      ]

  gather_sent :
      (channel : Str) (ns : List Str) (x : Str) (r : Wanted S) (w : S.World)
      → Ensures (fold_each (gather_role S channel) ns r) w (λ r' w'.
        edit_request (or_nil (lookup x r'.infos))
        ≡ wanted_request (L.view w) ns x (edit_request (or_nil (lookup x r.infos))))
  unfolding fold_each
  gather_sent channel [] x r w = Ensures-pure r refl
  gather_sent channel (n ∷ ns) x r w = >>=-Ensures _ _ λ r' e. record {
    holds = λ r'' f.
        let (one, kept) = (gather_role-sent channel n x r w).holds r' e in
        (gather_sent channel ns x r' _).holds r'' f ∙ ap₂ (λ v q. wanted_request v ns x q) kept one;
  }

  module _ (E : EditLaws S) where
    apply_roles-edits :
        (channel : Str) (wanted : Wanted S) (there : S.sets.StringSet) (w : S.World) (x : Str)
        → S.sets.has wanted.names x ≡ true
        → S.sets.has there x ≡ true
        → ((y : Str) → S.sets.has wanted.names y ≡ true → (sent S E wanted.infos y).name ≡ y)
        → Ensures
            (apply_roles S channel wanted there)
            w
            (λ _ w'. E.attributes w' x ≡ sent S E wanted.infos x)
    unfolding apply_roles
    apply_roles-edits channel wanted there w x h k named =
        let both = S.sets.intersection there wanted.names in
        let inside =
          λ (y : Str). T.contains-range both y ∙ T.has-intersection there wanted.names y in
        >>=-Ensures _ _ λ _ _. >>=-Ensures _ _ λ _ _. >>=-Ensures _ _ λ c g. Ensures-pure _ (
          let found : contains (S.sets.range both) x ≡ true = ground (arith, inside x) in
          (edits S E channel wanted.infos (S.sets.range both) x _
              (λ y m. named y (ground (arith, inside y)))).holds
            c g
          ∙ picked (contains (S.sets.range both) x) _ _ found)

    sync_roles-edits :
        (channel : Str) (w : S.World) (names : List Str) (x : Str)
        → (role_names S w).0 ≡ ok names
        → is_empty x ≡ false
        → wants S L T D (L.view w) names x ≡ true
        → D.listed w x ≡ true
        → ignored S T x ≡ false
        → Ensures
            (sync_roles S channel)
            w
            (λ _ w'. E.attributes w' x ≡ wanted_request (L.view w) names x blank)
    unfolding sync_roles
    sync_roles-edits channel w names x h given want seen open_to =
        reporting-bind S channel _ _ _ w λ ns e. >>=-Ensures _ _ λ wanted f.
          reporting-bind S channel _ _ _ _ λ roles g.
            let w1 = (role_names S w).1 in
            let q : ns ≡ names = cc in
            let fresh : Wanted S = record { names = S.sets.new; infos = [] } in
            let (view, _, still) = (role_names-Ensures S L T D w).holds ns e in
            let (gathered, same) = (gather_roles S L T D channel ns _ w1).holds wanted f in
            let has_wants = λ (y : Str).
              gathered y
              ∙ ap (λ b. (not (is_empty y) && b) || S.sets.has S.sets.new y)
                  (ap₂ (λ v l. wants S L T D v l y) view q) in
            let what = λ (y : Str).
              (gather_sent channel ns y fresh w1).holds wanted f
              ∙ ap₂ (λ v l. wanted_request v l y (edit_request (or_nil (lookup y [])))) view q
              ∙ ap (wanted_request (L.view w) names y) (nothing_sent y) in
            let old : D.listed (fold_each (gather_role S channel) ns _ w1).1 x ≡ D.listed w x =
              ap (λ d. d x) (same.2 ∙ still) in
            let on_discord : S.sets.has (discord_names S roles S.sets.new) x ≡ true =
              has-discord_names S T roles S.sets.new x
              ∙ ground
                  (arith, when-ok _ _ _ (D.get_all_roles_ok _ x) g, old, seen, open_to, given) in
            let in_store : S.sets.has wanted.names x ≡ true =
              ground (arith, has_wants x, want, given) in
            let own_name = λ (y : Str) (m : S.sets.has wanted.names y ≡ true).
              ap (λ (r : EditRoleRequest). r.name) (what y)
              ∙ wanted_request-name (L.view w) names y blank
                  (ground (arith, has_wants y, T.has-new y)) in
            record {
              holds = λ a k.
                  (apply_roles-edits channel wanted _ _ x in_store on_discord own_name).holds a k
                  ∙ what x;
            }

  -- After a synchronisation of the roles that succeeded, a role that the store wants, that
  -- GetAllRoles listed, and that is not protected, has on Discord the attributes in the store: those
  -- of the last role that is on and has its Name, among the roles that getRoles lists.
  pub sync_roles-sets :
      (E : EditLaws S) (channel : Str) (w : S.World) (names : List Str) (x : Str)
      → (role_names S w).0 ≡ ok names
      → (sync_roles S channel w).0 ≡ ok tt
      → is_empty x ≡ false
      → wants S L T D (L.view w) names x ≡ true
      → D.listed w x ≡ true
      → ignored S T x ≡ false
      → E.attributes (sync_roles S channel w).1 x ≡ wanted_request (L.view w) names x blank
  sync_roles-sets E channel w names x h k given want seen open_to =
      (sync_roles-edits E channel w names x h given want seen open_to).holds tt k
