-- ===== src/Handler/Roles/Update.antt =====
-- UpdateRole.
use role_srv.Base.{
  Str, ◌≡◌, ◌≢◌, arith, refl, true, ok, Ensures, >>=-Ensures, require-Ensures, Ensures-pure, Keeps,
  when-ok, contains, ap, ◌∙◌, is_ok, when-is_ok, attempt-world, some, if◌then◌else◌, ◌=?◌,
}
use role_srv.Proto.{UpdateInfo}
use role_srv.Redis.{RedisLaws, present, field, Entry}
use role_srv.Redis.Frames.{Holds, redis_frames}
use role_srv.Services.{Services}
use role_srv.Handler.Keys.{role_key, role_keys, valid_list_item}
use role_srv.Handler.Roles.{update_role}

module _ (S : Services) (L : RedisLaws S.redis) where
  open S.redis use {exists, h_set}

  -- The world in which UpdateRole sends its HSET.
  abbrev pub before_write : UpdateInfo → S.World → S.World
  before_write u w = (exists (role_key S u.name) w).1

  -- The HSET of UpdateRole replies.
  abbrev pub WriteReplies : UpdateInfo → S.World → Type 0
  WriteReplies u w = is_ok (h_set (role_key S u.name) u.key u.value (before_write u w)).0 ≡ true

  -- What a successful UpdateRole says of the worlds before and after it.
  pub record Updated (u : UpdateInfo) (w w' : S.World) : Type 0 where
    pub there : present (L.view w (role_key S u.name)) ≡ true
    pub known : contains role_keys u.key ≡ true
    -- The field has the new value and the others have their old values.
    pub written :
        (g : Str)
        → field (L.view w' (role_key S u.name)) g
          ≡ (if u.key =? g then some u.value else field (L.view w (role_key S u.name)) g)

  update_role-Keeps :
      (j : Str) (e : Entry) (u : UpdateInfo)
      → j ≢ role_key S u.name
      → Keeps (Holds S.redis L j e) (update_role S u)
  unfolding update_role
  update_role-Keeps j e u n = search redis_frames depth 12

  -- Whatever UpdateRole replies, it changes no key but that of the role.
  pub update_role-frame :
      (u : UpdateInfo) (w : S.World) (j : Str)
      → j ≢ role_key S u.name
      → L.view (update_role S u w).1 j ≡ L.view w j
  update_role-frame u w j n =
      ((update_role-Keeps j (L.view w j) u n).at w (record { at = refl })).at

  update_role-Updated :
      (u : UpdateInfo) (w : S.World)
      → WriteReplies u w
      → Ensures (update_role S u) w (λ _ w'. Updated u w w')
  unfolding update_role valid_list_item
  update_role-Updated u w replied =
      let k = role_key S u.name in
      >>=-Ensures _ _ λ n e. require-Ensures _ _ _ λ there. require-Ensures _ _ _ λ known.
        >>=-Ensures _ _ λ r done. Ensures-pure _ (record {
          there = ground (arith, when-ok _ _ _ (L.exists_ok k w) e);
          known = known;
          written = λ g.
              ap (λ x. field (L.view x k) g) (attempt-world (h_set k u.key u.value) _)
              ∙ when-is_ok _ _ _ replied (L.h_set_ok k u.key u.value _ g)
              ∙ ap (λ e. if u.key =? g then some u.value else field e g) (L.exists_frame k w k);
        })

  -- If its HSET replies, UpdateRole succeeds only for a role that is there and a key that may be
  -- set. Then that field of the role has the new value and every other field its old one.
  pub update_role-sets :
      (u : UpdateInfo) (w : S.World)
      → WriteReplies u w
      → (update_role S u w).0 ≡ ok tt
      → Updated u w (update_role S u w).1
  update_role-sets u w p h = (update_role-Updated u w p).holds tt h
