-- ===== src/Handler/Setup/Schema.antt =====
-- What updateSchema writes.
use role_srv.Base.{
  ◌≡◌, ◌≢◌, ◌∙◌, refl, sym, arith, false, Str, str, ◌=?◌, =?-eq, =?_iff, is_empty, or_empty, at, [],
  ◌∷◌, ap, pure, attempt, ◌>>◌, when-ok, Keeps, >>=-at, Bool-cases, inl, inr,
}
use role_srv.Redis.{RedisLaws, Entry, field}
use role_srv.Redis.Frames.{Holds, redis_frames}
use role_srv.Services.{Services}
use role_srv.Handler.Keys.{role_key}
use role_srv.Handler.Roles.{role_names}
use role_srv.Handler.Setup.{default_sync, update_schema}

pub given : (s : Str) → is_empty s ≡ false → (s =? []) ≡ false
unfolding ◌=?◌
given [] h = cc
given (c ∷ s) h = refl

module _ (S : Services) (L : RedisLaws S.redis) (j : Str) (e : Entry) where
  -- The key is no role's, or its Sync is set.
  abbrev pub IsSettled : Type 0
  IsSettled = (n : Str) → j ≡ role_key S n → is_empty (or_empty (field e (str "Sync"))) ≡ false

  write-Keeps :
      (n : Str)
      → j ≢ role_key S n
      → Keeps
          (Holds S.redis L j e)
          (do attempt (S.redis.h_set (role_key S n) (str "Sync") (str "1")); pure tt)
  write-Keeps n h = search redis_frames depth 12

  default_sync-other : (n : Str) → j ≢ role_key S n → Keeps (Holds S.redis L j e) (default_sync S n)
  unfolding default_sync
  default_sync-other n h = search redis_frames depth 12

  pub default_sync-Keeps : IsSettled → (n : Str) → Keeps (Holds S.redis L j e) (default_sync S n)
  unfolding pure default_sync at
  default_sync-Keeps h n = elim (Bool-cases (j =? role_key S n)) [
    | inr other ↦ default_sync-other n (λ q. ground (arith, =?_iff j (role_key S n)))
    | inl same ↦ record {
      at = λ w holds.
          let k = role_key S n in
          let q : j ≡ k = =?-eq j k same in
          let now : Holds S.redis L j e (S.redis.h_get_all k w).1 = record {
            at = L.h_get_all_frame k w j ∙ holds.at;
          } in
          >>=-at (Holds S.redis L j e) _ _ w now λ info read.
            let sync : at (str "Sync") info ≡ or_empty (field e (str "Sync")) =
              ap or_empty (when-ok _ _ _ (L.h_get_all_ok k w (str "Sync")) read)
              ∙ ap (λ v. or_empty (field v (str "Sync"))) (ap (L.view w) (sym q) ∙ holds.at) in
            let set : (at (str "Sync") info =? []) ≡ false = given _ (ap is_empty sync ∙ h n q) in
            rw set now;
    }
  ]

  role_names-Keeps : Keeps (Holds S.redis L j e) (role_names S)
  unfolding role_names
  role_names-Keeps = search redis_frames depth 12

  update_schema-Keeps : IsSettled → Keeps (Holds S.redis L j e) (update_schema S)
  unfolding update_schema
  update_schema-Keeps h =
      let d = default_sync-Keeps h in search (redis_frames, role_names-Keeps, d) depth 12

module _ (S : Services) (L : RedisLaws S.redis) where
  -- updateSchema changes only roles: a key that is no role's, and the key of a role whose Sync is set
  -- to something, hold afterwards what they held before, whatever Redis replies.
  pub update_schema-keeps_settled :
      (j : Str) (w : S.World)
      → IsSettled S L j (L.view w j)
      → L.view (update_schema S w).1 j ≡ L.view w j
  update_schema-keeps_settled j w h =
      ((update_schema-Keeps S L j (L.view w j) h).at w (record { at = refl })).at
