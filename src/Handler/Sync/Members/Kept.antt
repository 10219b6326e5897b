-- ===== src/Handler/Sync/Members/Kept.antt =====
-- The members whose roles on Discord a run of syncMembers leaves alone.
use role_srv.Base.{
  ℕ, ◌≡◌, ◌∙◌, ap, sym, refl, arith, Bool, true, false, List, [], ◌∷◌, Str, =?-refl, some, lookup,
  contains, ok,
}
use role_srv.Gateway.{Member}
use role_srv.Redis.{RedisLaws}
use role_srv.StringSets.{StringSetLaws}
use role_srv.Services.{Services}
use role_srv.Handler.Sync.Members.Gather.{Gathered}
use role_srv.Handler.Sync.Members.Update.{ignore_role, differ}
use role_srv.Handler.Sync.Members.Planned.{
  Skipped, ignored, same, without_roles, update_members-skips,
}
use role_srv.Handler.Sync.Members.Given.{MeetsKeys}
use role_srv.Handler.Sync.Members.Server.{Server, ServerLaws}
use role_srv.Handler.Sync.Members.Granted.{grants_by}
use role_srv.Handler.Sync.Members.Sources.{grants_from, grants_none}
use role_srv.Handler.Sync.Members.Trace.{role_ids, Collected, IsOpen, sync_members-Ran}
use role_srv.Handler.Sync.Members.Effect.{IsGranted, is_there, sides, granted_in}
use role_srv.Handler.Sync.Members.Run.{sync_members}

nothing_in : (l : List Str) → ((y : Str) → contains l y ≡ false) → l ≡ []
unfolding contains
nothing_in [] h = refl
nothing_in (x ∷ l) h = let e = h x in let r = =?-refl x in absurd (ground (arith, e, r))

iff_eq : (a b : Bool) → (a ≡ true → b ≡ true) → (b ≡ true → a ≡ true) → a ≡ b
iff_eq true b h k = sym (h refl)
iff_eq false true h k = k refl
iff_eq false false h k = refl

module _ (S : Services) (L : RedisLaws S.redis) (T : StringSetLaws S.sets) (D : Server S L)
    (Q : ServerLaws S L D) (w : S.World) (m : Member) where
  open S.sets use {StringSet, range, has, len, difference}

  no_elements : (s : StringSet) → ((y : Str) → has s y ≡ false) → range s ≡ []
  no_elements s h = nothing_in (range s) (λ y. T.contains-range s y ∙ h y)

  no_difference : (s t : StringSet) → ((y : Str) → has s y ≡ has t y) → len (difference s t) ≡ 0
  no_difference s t h =
      (T.len_zero (difference s t)).1
        (no_elements (difference s t) (λ y. T.has-difference s t y ∙ ground (arith, h y)))

  differ_of_same : (s t : StringSet) → ((y : Str) → has s y ≡ has t y) → differ S s t ≡ false
  unfolding differ
  differ_of_same s t h = rw (no_difference s t h, no_difference t s (λ y. sym (h y))) refl

  -- The name is ignored, the store grants no role, or the same names as Discord shows.
  pub data Settled : Type 0 where
    ignored_name : ignore_role S m.user.username ≡ true → Settled
    no_role : ((y n : Str) → grants_by S (L.view w) m.user.id y n ≡ false) → Settled
    same_names :
        ((y n : Str)
          → grants_by S (L.view w) m.user.id y n ≡ true
          → is_there S L T D Q w m y ≡ true)
        → ((y : Str) → is_there S L T D Q w m y ≡ true → IsGranted S L T D Q w m y)
        → Settled

  skipped :
      (g : Gathered S) (names : List Str) (chremoas : _)
      → (k : Collected S L T D Q w m g names chremoas) → Settled
      → Skipped S g.names m.user.id (lookup m.user.id chremoas) (lookup m.user.id g.discord)
  skipped g names chremoas k (ignored_name h) =
      let s = sides S L T D Q w m g names chremoas k in ignored (ap (ignore_role S) s.name ∙ h)
  skipped g names chremoas k (no_role h) =
      let s = sides S L T D Q w m g names chremoas k in
      without_roles s.c s.in_store
        (no_elements s.c (λ y. s.stored y ∙ grants_none S (L.view w) m.user.id y names (h y)))
  skipped g names chremoas k (same_names there granted) =
      let s = sides S L T D Q w m g names chremoas k in
      same s.c s.d s.in_store s.on_discord (
        differ_of_same s.c s.d λ y.
          s.stored y
          ∙ iff_eq _ _
              (λ e.
                let (n, listed, q) = grants_from S (L.view w) m.user.id y names e in there y n q)
              (λ e. granted_in S L T D Q w m g names chremoas k y (granted y e))
          ∙ sym (s.shown y))

  -- A syncMembers that succeeds changes no role of a member of the server whose name is ignored, to
  -- whom the store grants no role, or whose role names on Discord are already those granted. The
  -- member has a positive id of its own and is not on members:no_sync, and Discord makes every
  -- update of it.
  pub sync_members-keeps :
      MeetsKeys S T
      → IsOpen S L T D Q w m
      → (channel : Str) (send : Bool) (fuel : ℕ) (x : Str) → Settled
      → (sync_members S fuel channel send w).0 ≡ ok (some tt)
      → D.updates.has_role (sync_members S fuel channel send w).1 m.user.id x
        ≡ D.updates.has_role w m.user.id x
  sync_members-keeps meets o channel send fuel x settled e =
      let ran = sync_members-Ran S L T D Q w m x channel send meets o fuel e in
      let nothing =
        update_members-skips S (role_ids S L T D Q w m) ran.g ran.chremoas m.user.id
          (skipped ran.g ran.names ran.chremoas ran.collected settled) in
      ran.final ∙ rw nothing refl
