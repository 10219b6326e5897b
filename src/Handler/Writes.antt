-- ===== src/Handler/Writes.antt =====
-- The seven handlers that write, and the one key that each may change.
use role_srv.Base.{
  Str, List, [], ◌∷◌, ◌≡◌, ◌≢◌, refl, Result, outcome, Keeps, Keeps-bind, Keeps-lift,
}
use role_srv.Proto.{Role, UpdateInfo, Filter, Members}
use role_srv.Redis.{RedisLaws, Entry}
use role_srv.Redis.Frames.{Holds, redis_frames}
use role_srv.Services.{Services}
use role_srv.Handler.Keys.{role_key, description_key, members_key}
use role_srv.Handler.Roles.{add_role, update_role, remove_role}
use role_srv.Handler.Roles.Add.{add_role-frame}
use role_srv.Handler.Roles.Update.{update_role-frame}
use role_srv.Handler.Roles.Remove.{remove_role-frame}
use role_srv.Handler.Filters.{
  add_filter, remove_filter, add_members, remove_members, add_each, remove_each,
}
use role_srv.Handler.Filters.Describe.{filter_frame}

module _ (S : Services) (L : RedisLaws S.redis) (j : Str) (e : Entry) where
  pub add_each-Keeps :
      (k : Str) (xs : List Str) (last : Result (Unit {0}))
      → j ≢ k
      → Keeps (Holds S.redis L j e) (add_each S k xs last)
  unfolding add_each
  add_each-Keeps k [] last n = Keeps-lift last
  add_each-Keeps k (x ∷ xs) last n =
      Keeps-bind _ _ (search redis_frames) λ r. add_each-Keeps k xs (outcome r) n

  remove_each-Keeps :
      (k : Str) (xs : List Str) (last : Result (Unit {0}))
      → j ≢ k
      → Keeps (Holds S.redis L j e) (remove_each S k xs last)
  unfolding remove_each
  remove_each-Keeps k [] last n = Keeps-lift last
  remove_each-Keeps k (x ∷ xs) last n =
      Keeps-bind _ _ (search redis_frames) λ r. remove_each-Keeps k xs (outcome r) n

  pub add_members-Keeps :
      (m : Members) → j ≢ members_key S m.filter → Keeps (Holds S.redis L j e) (add_members S m)
  unfolding add_members
  add_members-Keeps m n = search (redis_frames, add_each-Keeps) depth 12

  pub remove_members-Keeps :
      (m : Members) → j ≢ members_key S m.filter → Keeps (Holds S.redis L j e) (remove_members S m)
  unfolding remove_members
  remove_members-Keeps m n = search (redis_frames, remove_each-Keeps) depth 12

module _ (S : Services) (L : RedisLaws S.redis) where
  pub members_frame :
      (m : Members) (w : S.World) (j : Str)
      → j ≢ members_key S m.filter
      → (L.view (add_members S m w).1 j ≡ L.view w j)
        × (L.view (remove_members S m w).1 j ≡ L.view w j)
  members_frame m w j n = (
    ((add_members-Keeps S L j (L.view w j) m n).at w (record { at = refl })).at,
    ((remove_members-Keeps S L j (L.view w j) m n).at w (record { at = refl })).at,
  )

  -- Whatever they reply, AddRole, UpdateRole and RemoveRole change no key but that of the role,
  -- AddFilter and RemoveFilter none but that of the filter's description, and AddMembers and
  -- RemoveMembers none but that of the filter's members.
  pub writes_frame :
      (r : Role) (u : UpdateInfo) (f : Filter) (m : Members) (w : S.World) (j : Str)
      → j ≢ role_key S r.short_name
      → j ≢ role_key S u.name
      → j ≢ description_key S f.name
      → j ≢ members_key S m.filter
      → (L.view (add_role S r w).1 j ≡ L.view w j)
        × (L.view (remove_role S r w).1 j ≡ L.view w j)
        × (L.view (update_role S u w).1 j ≡ L.view w j)
        × (L.view (add_filter S f w).1 j ≡ L.view w j)
        × (L.view (remove_filter S f w).1 j ≡ L.view w j)
        × (L.view (add_members S m w).1 j ≡ L.view w j)
        × (L.view (remove_members S m w).1 j ≡ L.view w j)
  writes_frame r u f m w j not_r not_u not_f not_m =
      let (added, removed) = filter_frame S L f w j not_f in
      let (joined, left) = members_frame m w j not_m in
      (
        add_role-frame S L r w j not_r,
        remove_role-frame S L r w j not_r,
        update_role-frame S L u w j not_u,
        added,
        removed,
        joined,
        left,
      )
