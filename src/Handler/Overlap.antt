-- ===== src/Handler/Overlap.antt =====
-- Requests of handler/Roles.go that are served at the same time: another request runs between the
-- EXISTS of a request and its next command.
use role_srv.Base.{
  ℕ, suc, ◌==◌, ◌≡◌, refl, ap, sym, ◌∙◌, not, List, [], ◌∷◌, Str, ok, Exec, Result, outcome,
  contains, arith, false, is_ok, ok-bind, require-bind, fun_ext, attempt, ◌>>=◌,
}
use role_srv.Proto.{Filter, Members}
use role_srv.Redis.{RedisLaws, absent, has}
use role_srv.Services.{Services}
use role_srv.Handler.Keys.{description_key, members_key}
use role_srv.Handler.Keys.Distinct.{description-ne-members}
use role_srv.Handler.Filters.{add_each, add_members, remove_filter}
use role_srv.Handler.Filters.Change.{AllReply, add_each-adds}
use role_srv.Handler.Filters.Describe.{
  Answered, filter_frame, remove_filter-succeeds, remove_filter-removes,
}
use role_srv.Handler.Writes.{add_each-Keeps}

-- The filter that a request names.
abbrev pub named : Members → Filter
named m = record { name = m.filter; description = [] }

-- The service as one request sees it, with `other` served right behind each of its EXISTS.
abbrev pub overlapped : (S : Services) → Exec S.World (Unit {0}) → Services
overlapped S other = record S {
  redis = record S.redis { exists = λ k w. let (n, v) = S.redis.exists k w in (n, (other v).1) };
}

module _ (S : Services) (L : RedisLaws S.redis) where
  open S.redis use {exists, s_add}

  module _ (other : Exec S.World (Unit {0})) where
    abbrev Other : Services
    Other = overlapped S other

    add_each_overlapped :
        (k : Str) (xs : List Str) (last : Result (Unit {0}))
        → add_each Other k xs last ≡ add_each S k xs last
    unfolding add_each
    add_each_overlapped k [] last = refl
    add_each_overlapped k (x ∷ xs) last =
        ap (λ f. attempt (s_add k x) >>= f) (fun_ext λ r. add_each_overlapped k xs (outcome r))

    -- AddMembers of a filter that is there, as the other request leaves it.
    add_members_overlapped :
        (m : Members) (w : S.World) (n : ℕ)
        → (exists (description_key S m.filter) w).0 ≡ ok (suc n)
        → add_members Other m w
          ≡ add_each S
              (members_key S m.filter)
              m.name
              (ok tt)
              (other (exists (description_key S m.filter) w).1).1
    unfolding add_members
    add_members_overlapped m w n there =
        ok-bind (Other.redis.exists (description_key S m.filter)) _ w (suc n) there
        ∙ require-bind (not (suc n == 0)) _ _ _ (ground arith)
        ∙ ap (λ f. f (other (exists (description_key S m.filter) w).1).1)
            (add_each_overlapped (members_key S m.filter) m.name (ok tt))

  -- The world behind the other request, a RemoveFilter of the same filter.
  abbrev pub removed : Members → S.World → S.World
  removed m w = (remove_filter S (named m) (exists (description_key S m.filter) w).1).1

  -- The commands of both requests reply, and the filter is there when each of them asks.
  pub record Overlap (m : Members) (w : S.World) : Type 0 where
    pub there : ℕ
    pub found : (exists (description_key S m.filter) w).0 ≡ ok (suc there)
    pub answered : Answered S L (named m) (exists (description_key S m.filter) w).1
    pub added : AllReply S L s_add (members_key S m.filter) m.name (removed m w)

  -- A RemoveFilter of an empty filter that is served between the EXISTS of AddMembers and its SADDs
  -- leaves both requests successful, if both find the filter and their commands reply, and then the
  -- filter has exactly the members of the request, and no description.
  pub add_members-overlaps :
      (m : Members) (w : S.World)
      → Overlap m w
      → ((user : Str) → has (L.view w (members_key S m.filter)) user ≡ false)
      → let after = (add_members (overlapped S (remove_filter S (named m))) m w).1 in
        ((remove_filter S (named m) (exists (description_key S m.filter) w).1).0 ≡ ok tt)
        × ((add_members (overlapped S (remove_filter S (named m))) m w).0 ≡ ok tt)
        × (L.view after (description_key S m.filter) ≡ absent)
        × ((user : Str) → has (L.view after (members_key S m.filter)) user ≡ contains m.name user)
  add_members-overlaps m w o empty =
      let k = members_key S m.filter in
      let d = description_key S m.filter in
      let w1 = (exists d w).1 in
      let v = removed m w in
      let still = λ (user : Str). ap (λ e. has e user) (L.exists_frame d w k) ∙ empty user in
      let succeeds = remove_filter-succeeds S L (named m) w1 o.answered still in
      let (fine, added) = add_each-adds S L k m.name v o.added in
      let gone =
        (remove_filter-removes S L (named m) w1 (ap is_ok o.answered.read) succeeds).gone in
      let kept =
        ((add_each-Keeps S L d (L.view v d) k m.name (ok tt)
            (description-ne-members S L m.filter m.filter)).at
          v (record { at = refl })).at in
      let members =
        (filter_frame S L (named m) w1 k
          (λ e. description-ne-members S L m.filter m.filter (sym e))).1 in
      rw (add_members_overlapped (remove_filter S (named m)) m w o.there o.found) (
        succeeds,
        fine,
        kept ∙ gone,
        λ user. ground (arith, added user, ap (λ e. has e user) members, still user),
      )
