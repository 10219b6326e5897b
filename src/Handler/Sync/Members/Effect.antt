-- ===== src/Handler/Sync/Members/Effect.antt =====
-- The roles on Discord of a member behind a run of syncMembers that succeeds.
use role_srv.Base.{
  ℕ, ◌≡◌, ◌≢◌, ◌↔◌, ◌∙◌, ap, sym, refl, arith, Bool, true, false, not, ◌&&◌, ◌||◌, List, [], map,
  subst, Str, is_empty, some, is_some, Dict, lookup, at, contains, ok, if◌then◌else◌,
}
use role_srv.Base.Text.Split.{Lacks}
use role_srv.Gateway.{Member}
use role_srv.Redis.{RedisLaws}
use role_srv.StringSets.{StringSetLaws}
use role_srv.Services.{Services}
use role_srv.Handler.Sync.Roles.Differences.{named}
use role_srv.Handler.Sync.Members.Gather.{Gathered, or_new}
use role_srv.Handler.Sync.Members.Update.{ignore_role, update_members}
use role_srv.Handler.Sync.Members.Given.{
  MeetsKeys, planned, is_id_of, update_members-gives, differ_of_ne,
}
use role_srv.Handler.Sync.Members.Server.{Server, ServerLaws}
use role_srv.Handler.Sync.Members.Granted.{grants_by, grants}
use role_srv.Handler.Roles.Names.{contains-map, contains-map_of}
use role_srv.Handler.Sync.Members.Sources.{present_of_grants, grants_in, grants_from, grants_none}
use role_srv.Handler.Sync.Members.Entry.{some_of, is_some-update_members}
use role_srv.Handler.Sync.Members.Trace.{role_ids, Collected, IsOpen, sync_members-Ran}
use role_srv.Handler.Sync.Members.Run.{sync_members}

or_false : (b : Bool) → (b || false) ≡ b
or_false true = refl
or_false false = refl

module _ (S : Services) (L : RedisLaws S.redis) (T : StringSetLaws S.sets) (D : Server S L)
    (Q : ServerLaws S L D) (w : S.World) (m : Member) where
  open S.sets use {StringSet, range, has}

  -- The member has a role of that name on Discord.
  abbrev pub is_there : Str → Bool
  is_there y = not (is_empty y) && named m.roles y

  -- A role of the store, under a short name without a colon, grants the member the name.
  abbrev pub IsGranted : Str → Type 0
  IsGranted y = (n : Str) × Lacks b':' n × (grants_by S (L.view w) m.user.id y n ≡ true)

  -- A name on one side and not on the other.
  pub data Mismatch : Type 0 where
    missing : (y : Str) → IsGranted y → is_there y ≡ false → Mismatch
    extra :
        (y : Str)
        → is_there y ≡ true
        → ((n : Str) → grants_by S (L.view w) m.user.id y n ≡ false)
        → Mismatch

  -- `b` says whether `x` is the id of a role on Discord whose name is granted.
  abbrev pub Exactly : Str → Bool → Type 0
  Exactly x b = (b ≡ true) ↔ ((r : Str) × IsGranted r × (at r (role_ids S L T D Q w m) ≡ x))

  -- The two sides of the member, as gathered.
  pub record Sides (g : Gathered S) (names : List Str) (chremoas : Dict StringSet) : Type 0 where
    pub c : StringSet
    pub d : StringSet
    pub in_store : lookup m.user.id chremoas ≡ some c
    pub on_discord : lookup m.user.id g.discord ≡ some d
    pub stored : (y : Str) → has c y ≡ grants S (L.view w) m.user.id y names
    pub shown : (y : Str) → has d y ≡ is_there y
    pub name : at m.user.id g.names ≡ m.user.username

  module _ (g : Gathered S) (names : List Str) (chremoas : Dict StringSet)
      (k : Collected S L T D Q w m g names chremoas) where
    pub sides : Sides g names chremoas
    sides =
        let seen = k.found.seen in
        let (d, on_discord) = some_of (lookup m.user.id g.discord) k.found.there in
        let (c, in_store) =
          some_of (lookup m.user.id chremoas) ((k.granted []).room (seen.room k.found.there)) in
        record {
          c = c;
          d = d;
          in_store = in_store;
          on_discord = on_discord;
          stored = λ y.
              sym (ap (λ o. has (or_new S o) y) in_store)
              ∙ (k.granted y).entry
              ∙ ap (λ b. grants S (L.view w) m.user.id y names || b) (seen.bare y)
              ∙ or_false (grants S (L.view w) m.user.id y names);
          shown = λ y.
              sym (ap (λ o. has (or_new S o) y) on_discord)
              ∙ seen.entry y
              ∙ ap (λ b. b && is_there y) k.found.there;
          name = seen.name k.found.there;
        }

    pub granted_in : (y : Str) → IsGranted y → grants S (L.view w) m.user.id y names ≡ true
    granted_in y (n, lacks, h) =
        grants_in S (L.view w) m.user.id y names n
          (k.listed n lacks (present_of_grants S (L.view w) m.user.id y n h)) h

    mismatch_ne : (s : Sides g names chremoas) → Mismatch → (y : Str) × (has s.c y ≢ has s.d y)
    mismatch_ne s (missing y h out) = (y, λ e. cc (s.stored y, s.shown y, granted_in y h))
    mismatch_ne s (extra y there none_grants) =
        (y, λ e. cc (s.stored y, s.shown y, grants_none S (L.view w) m.user.id y names none_grants))

    module _ (s : Sides g names chremoas) (x : Str) where
      abbrev updates : Dict StringSet
      updates = update_members S (role_ids S L T D Q w m) g chremoas

      is_id_of-Exactly :
          is_empty x ≡ false → Exactly x (is_id_of S T (role_ids S L T D Q w m) (range s.c) x)
      is_id_of-Exactly given =
          let ids = role_ids S L T D Q w m in
          (
            λ h.
                let (r, within, q) = contains-map_of (λ a. at a ids) (range s.c) x (ground arith) in
                let (n, listed, g) =
                  grants_from S (L.view w) m.user.id r names
                    (sym (s.stored r) ∙ sym (T.contains-range s.c r) ∙ within) in
                (r, (n, k.plain n listed, g), q),
            λ (r, h, q).
                let within : contains (range s.c) r ≡ true =
                  T.contains-range s.c r ∙ s.stored r ∙ granted_in r h in
                let e : contains (map (λ a. at a ids) (range s.c)) x ≡ true =
                  ap (contains (map (λ a. at a ids) (range s.c))) (sym q)
                  ∙ contains-map (λ a. at a ids) (range s.c) r within in
                ground (arith, e),
          )

      -- What is planned for a member whose sides differ.
      planned-Exactly :
          MeetsKeys S T
          → ignore_role S m.user.username ≡ false
          → (y₀ : Str) → IsGranted y₀
          → Mismatch
          → is_empty x ≡ false
          → (is_some (lookup m.user.id updates) ≡ true)
            × Exactly x (planned S T updates m.user.id x)
      planned-Exactly meets free y₀ some_role differs given =
          let ids = role_ids S L T D Q w m in
          let (y, n) = mismatch_ne s differs in
          let open_name = ap (ignore_role S) s.name ∙ free in
          let planned_ids =
            update_members-gives S T ids g chremoas m.user.id s.c s.d x y meets s.in_store
              s.on_discord n open_name in
          (
            is_some-update_members S T ids g chremoas m.user.id s.c s.d y₀
                (record {
                  in_store = s.in_store;
                  on_discord = s.on_discord;
                  differ_there = differ_of_ne S T s.c s.d y n;
                  not_ignored = open_name;
                })
                (s.stored y₀ ∙ granted_in y₀ some_role) meets,
            subst (Exactly x) (sym planned_ids) (is_id_of-Exactly given),
          )

  module _ (meets : MeetsKeys S T) (o : IsOpen S L T D Q w m) (channel : Str) (send : Bool)
      (fuel : ℕ) (ok_run : (sync_members S fuel channel send w).0 ≡ ok (some tt)) (x : Str) where
    -- Behind a syncMembers that succeeded, a member of the server whose name is not ignored, to whom
    -- the store grants a role, and whose role names on Discord are not those granted, has exactly the
    -- roles of the granted names. The member has a positive id of its own and is not on
    -- members:no_sync, and Discord makes every update of it.
    pub sync_members-gives :
        ignore_role S m.user.username ≡ false
        → (y₀ : Str) → IsGranted y₀
        → Mismatch
        → is_empty x ≡ false
        → Exactly x (D.updates.has_role (sync_members S fuel channel send w).1 m.user.id x)
    sync_members-gives free y₀ some_role differs given =
        let ran = sync_members-Ran S L T D Q w m x channel send meets o fuel ok_run in
        let k = ran.collected in
        let (there, exact) =
          planned-Exactly ran.g ran.names ran.chremoas k (sides ran.g ran.names ran.chremoas k) x
            meets free y₀ some_role differs given in
        subst (Exactly x)
          (sym (
            ran.final
            ∙ ap
                (λ b.
                  if b
                  then planned S T
                      (updates ran.g ran.names ran.chremoas k (sides ran.g ran.names ran.chremoas k)
                        x)
                      m.user.id x
                  else D.updates.has_role w m.user.id x)
                there))
          exact
