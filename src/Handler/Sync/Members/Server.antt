-- ===== src/Handler/Sync/Members/Server.antt =====
-- Discord's server and the store beside each other: what syncMembers reads of them, and that its
-- reading changes nothing.
use role_srv.Base.{ℕ, ◌<◌, ◌≡◌, ◌∙◌, refl, ◌⊎◌, true, List, [], ◌∷◌, Str, contains, ok, Exec, Keeps}
use role_srv.Gateway.{Member, DiscordRole}
use role_srv.Redis.{RedisLaws}
use role_srv.Services.{Services}
use role_srv.Handler.Sync.Calls.{Reads}
use role_srv.Handler.Sync.Members.Pages.{PagingLaws, All, Among, behind}
use role_srv.Handler.Sync.Members.Spared.{UpdateLaws}

-- The page is not empty, and the member is behind all of it.
abbrev pub BehindPage : Member → List Member → Type 0
BehindPage m [] = ⊥
BehindPage m (p ∷ ps) = All (λ q. behind q.user.id m ≡ true) (p ∷ ps)

-- What can be seen of the server: its members (`paging`), who has which role (`updates`), its roles.
pub record Server (S : Services) (L : RedisLaws S.redis) : Type 0 where
  pub paging : PagingLaws S
  pub updates : UpdateLaws S L
  pub roles : S.World → List DiscordRole

module _ (S : Services) (L : RedisLaws S.redis) (D : Server S L) where
  -- `v` has the store and the server of `w`.
  pub record Same (w v : S.World) : Type 0 where
    pub store : L.view v ≡ L.view w
    pub members : D.paging.members v ≡ D.paging.members w
    pub has_role : D.updates.has_role v ≡ D.updates.has_role w
    pub roles : D.roles v ≡ D.roles w

  abbrev pub Quiet : {A : Type 0} → Exec S.World A → Type 0
  Quiet m = (w : S.World) → Same w (m w).1

  -- Reads of Redis and of Discord, and messages to a channel, change neither the store nor the server.
  -- A page that leaves out a member behind the given id holds an earlier one, and only such. An
  -- update of a user overwrites the user's roles.
  pub record ServerLaws : Type 0 where
    pub exists_quiet : (k : Str) → Quiet (S.redis.exists k)
    pub keys_quiet : (p : Str) → Quiet (S.redis.keys p)
    pub h_get_all_quiet : (k : Str) → Quiet (S.redis.h_get_all k)
    pub s_members_quiet : (k : Str) → Quiet (S.redis.s_members k)
    pub s_inter_quiet : (a b : Str) → Quiet (S.redis.s_inter a b)
    pub s_is_member_quiet : (k x : Str) → Quiet (S.redis.s_is_member k x)
    pub get_all_members_quiet : (n : ℕ) (after : Str) → Quiet (S.gateway.get_all_members n after)
    pub get_all_roles_quiet : Quiet S.gateway.get_all_roles
    pub send_message_quiet : (c t : Str) → Quiet (S.gateway.send_message c t)
    pub roles_ok :
        (w : S.World) (rs : List DiscordRole)
        → (S.gateway.get_all_roles w).0 ≡ ok rs
        → rs ≡ D.roles w
    pub page_rest :
        (n : ℕ) (after : Str) (w : S.World) (page : List Member) (m : Member)
        → (S.gateway.get_all_members n after w).0 ≡ ok page
        → 0 < n
        → Among m (D.paging.members w)
        → behind after m ≡ true
        → Among m page ⊎ BehindPage m page
    pub update_member_ok :
        (m : Str) (ids : List Str) (w : S.World) (x : Str)
        → (S.gateway.update_member m ids w).0 ≡ ok tt
        → D.updates.has_role (S.gateway.update_member m ids w).1 m x ≡ contains ids x

  pub Same_refl : (w : S.World) → Same w w
  Same_refl w = record { store = refl; members = refl; has_role = refl; roles = refl }

  pub Same_trans : (u v w : S.World) → Same u v → Same v w → Same u w
  Same_trans u v w h k = record {
    store = k.store ∙ h.store;
    members = k.members ∙ h.members;
    has_role = k.has_role ∙ h.has_role;
    roles = k.roles ∙ h.roles;
  }

  module _ (Q : ServerLaws) (w : S.World) where
    Quiet-Keeps : {A : Type 0} (m : Exec S.World A) → Quiet m → Keeps (Same w) m
    Quiet-Keeps m q = record { at = λ v h. Same_trans w v (m v).1 h (q v) }

    -- So what only reads, or sends messages, keeps both.
    pub Same-Reads : Reads S (Same w)
    Same-Reads = record {
      exists = λ k. Quiet-Keeps _ (Q.exists_quiet k);
      keys = λ p. Quiet-Keeps _ (Q.keys_quiet p);
      h_get_all = λ k. Quiet-Keeps _ (Q.h_get_all_quiet k);
      s_members = λ k. Quiet-Keeps _ (Q.s_members_quiet k);
      s_inter = λ a b. Quiet-Keeps _ (Q.s_inter_quiet a b);
      s_is_member = λ k x. Quiet-Keeps _ (Q.s_is_member_quiet k x);
      get_all_members = λ n after. Quiet-Keeps _ (Q.get_all_members_quiet n after);
      get_all_roles = Quiet-Keeps _ Q.get_all_roles_quiet;
      send = λ c t. Quiet-Keeps _ (Q.send_message_quiet c t);
    }
