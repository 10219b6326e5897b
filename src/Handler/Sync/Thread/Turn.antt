-- ===== src/Handler/Sync/Thread/Turn.antt =====
-- One turn of syncThread: what it makes of the roles of Discord.
use role_srv.Base.{
  dropped-world, ℕ, ◌≡◌, ◌∙◌, refl, ap, ap₂, false, true, not, ◌||◌, Bool, Str, str, List, Exec, ok,
  is_ok, is_ok-ne-panic, is_empty, pure, gets, attempt, attempt-bind, ok-bind, ◌>>=◌, ◌>>◌, Option,
  none, some, Result, err, panic, keeps_rules, Keeps-pure, Keeps-crash, Keeps, Keeps-bind,
  Keeps-gets, Keeps-attempt,
}
use role_srv.Proto.{SyncRequest}
use role_srv.Redis.{RedisLaws}
use role_srv.StringSets.{StringSetLaws}
use role_srv.Services.{Services}
use role_srv.Handler.Roles.{role_names}
use role_srv.Handler.Sync.Report.{send_message, send_dual_message}
use role_srv.Handler.Sync.Roles.{sync_roles}
use role_srv.Handler.Sync.Roles.Differences.{ignored}
use role_srv.Handler.Sync.Roles.Discord.{DiscordLaws}
use role_srv.Handler.Sync.Roles.Effect.{wants, settled_role, sync_roles-makes}
use role_srv.Handler.Sync.Members.Run.{send_since, sync_members}
use role_srv.Handler.Sync.Thread.{sync_once, synced, completed}
use role_srv.Handler.Sync.Calls.{
  Reads, Calls, send_dual_message-Keeps, send_since-Keeps, sync_members-Keeps,
}

module _ (S : Services) (r : SyncRequest) where
  abbrev pub first_message : Exec S.World (Unit {0})
  first_message = send_dual_message S (str "Starting Role Sync") r.channel_id r.send_message

  -- The world in which a turn begins to synchronise the roles.
  abbrev pub begun : S.World → S.World
  begun w = (first_message w).1

module _ (S : Services) (L : RedisLaws S.redis) (D : DiscordLaws S) where
  abbrev Apart : {A : Type 0} → Exec S.World A → Type 0
  Apart m = (w : S.World) (x : Str) → D.there (m w).1 x ≡ D.there w x

  -- The other calls of a turn leave the roles of Discord as they are: reads of Redis and of the
  -- members, messages, and updates of a member. A message leaves the store alone too.
  pub record TurnLaws : Type 0 where
    pub exists_apart : (k : Str) → Apart (S.redis.exists k)
    pub s_members_apart : (k : Str) → Apart (S.redis.s_members k)
    pub s_inter_apart : (a b : Str) → Apart (S.redis.s_inter a b)
    pub s_is_member_apart : (k x : Str) → Apart (S.redis.s_is_member k x)
    pub get_all_members_apart : (n : ℕ) (after : Str) → Apart (S.gateway.get_all_members n after)
    pub update_member_apart : (m : Str) (ids : List Str) → Apart (S.gateway.update_member m ids)
    pub send_apart : (c t : Str) → Apart (S.gateway.send_message c t)
    pub send_store : (c t : Str) (w : S.World) → L.view (S.gateway.send_message c t w).1 ≡ L.view w

  -- Discord has the role, or has it not.
  record There (x : Str) (b : Bool) (w : S.World) : Type 0 where
    at : D.there w x ≡ b

  module _ (Q : TurnLaws) (x : Str) (b : Bool) where
    apart-Keeps : {A : Type 0} (m : Exec S.World A) → Apart m → Keeps (There x b) m
    apart-Keeps m a = record { at = λ w h. record { at = a w x ∙ h.at } }

    There-Reads : Reads S (There x b)
    There-Reads = record {
      exists = λ k. apart-Keeps _ (Q.exists_apart k);
      keys = λ p. apart-Keeps _ (D.keys_frame p);
      h_get_all = λ k. apart-Keeps _ (D.h_get_all_frame k);
      s_members = λ k. apart-Keeps _ (Q.s_members_apart k);
      s_inter = λ k j. apart-Keeps _ (Q.s_inter_apart k j);
      s_is_member = λ k y. apart-Keeps _ (Q.s_is_member_apart k y);
      get_all_members = λ n a. apart-Keeps _ (Q.get_all_members_apart n a);
      get_all_roles = apart-Keeps _ D.get_all_roles_frame;
      send = λ c t. apart-Keeps _ (Q.send_apart c t);
    }

    There-Calls : Calls S (There x b)
    There-Calls = record {
      reads = There-Reads;
      update_member = λ m ids. apart-Keeps _ (Q.update_member_apart m ids);
    }

  -- The store behind a message.
  message_store :
      TurnLaws
      → (t c : Str) (send : Bool) (w : S.World)
      → L.view (send_dual_message S t c send w).1 ≡ L.view w
  unfolding send_dual_message send_message pure
  message_store Q t c true w =
      ap L.view (dropped-world (S.gateway.send_message c (S.send_success t)) w) ∙ Q.send_store c _ w
  message_store Q t c false w = refl

  module _ (T : StringSetLaws S.sets) (fuel : ℕ) (r : SyncRequest) where
    -- What follows the synchronisation of the roles.
    abbrev after_roles : ℕ → Exec S.World (Option (Unit {0}))
    after_roles t1 = do
      send_since S (str "Completed Role Sync") t1 r.channel_id r.send_message
      t2 ← gets S.now
      send_dual_message S (str "Starting Member Sync") r.channel_id r.send_message
      outcome ← attempt (sync_members S fuel r.channel_id r.send_message)
      synced S t1 t2 r outcome

    sync_once_lem :
        (w : S.World)
        → (first_message S r w).0 ≡ ok tt
        → (sync_roles S r.channel_id (begun S r w)).0 ≡ ok tt
        → sync_once S fuel r w ≡ after_roles (S.now w) (sync_roles S r.channel_id (begun S r w)).1
    unfolding sync_once gets
    sync_once_lem w said made =
        ok-bind (gets S.now) _ w (S.now w) refl
        ∙ ok-bind (first_message S r) _ w tt said
        ∙ attempt-bind (sync_roles S r.channel_id) _ (begun S r w)
            (is_ok-ne-panic _ (ap is_ok made))

    module _ (Q : TurnLaws) (x : Str) (b : Bool) where
      completed-Keeps : (t1 t2 : ℕ) → Keeps (There x b) (completed S t1 t2 r)
      completed-Keeps t1 t2 =
          search (keeps_rules, send_since-Keeps S (There x b) (There-Reads Q x b)) depth 12

      synced-Keeps :
          (t1 t2 : ℕ) (o : Result (Option (Unit {0}))) → Keeps (There x b) (synced S t1 t2 r o)
      synced-Keeps t1 t2 (ok (some _)) = completed-Keeps t1 t2
      synced-Keeps t1 t2 (ok none) = Keeps-pure none
      synced-Keeps t1 t2 (err _) = completed-Keeps t1 t2
      synced-Keeps t1 t2 panic = Keeps-crash

      after_roles-Keeps : (t : ℕ) → Keeps (There x b) (after_roles t)
      after_roles-Keeps t =
          let P = There x b in
          let K = There-Reads Q x b in
          Keeps-bind _ _ (send_since-Keeps S P K _ t _ _) λ _. Keeps-bind _ _ (Keeps-gets _) λ t2.
            Keeps-bind _ _ (send_dual_message-Keeps S P K _ _ _) λ _.
              Keeps-bind _ _ (Keeps-attempt _ (sync_members-Keeps S P (There-Calls Q x b) fuel _ _))
                λ o. synced-Keeps t t2 o

    -- After one turn of the thread in which syncRoles succeeds, and whatever becomes of syncMembers
    -- and of the messages behind it, Discord has a role that the store wanted when the turn began,
    -- unless GetAllRoles listed the role while Discord did not have it and it is not protected. It
    -- has a role that the store did not want exactly if it had it when the turn began and the role is
    -- protected or was not in the list. The first message must not be a panic.
    pub sync_once-makes :
        TurnLaws
        → (w : S.World) (names : List Str) (x : Str) → is_empty x ≡ false
        → (first_message S r w).0 ≡ ok tt
        → (role_names S (begun S r w)).0 ≡ ok names
        → (sync_roles S r.channel_id (begun S r w)).0 ≡ ok tt
        → D.there (sync_once S fuel r w).1 x
          ≡ settled_role
              (wants S L T D (L.view w) names x)
              (D.there w x)
              (ignored S T x || not (D.listed (begun S r w) x))
    sync_once-makes Q w names x given said listed made =
        let w1 = begun S r w in
        let w2 = (sync_roles S r.channel_id w1).1 in
        let kept = (after_roles-Keeps Q x (D.there w2 x) (S.now w)).at w2 (record { at = refl }) in
        let before =
          (send_dual_message-Keeps S (There x (D.there w x)) (There-Reads Q x (D.there w x)) _ _
              _).at
            w (record { at = refl }) in
        ap (λ p. D.there p.1 x) (sync_once_lem w said made)
        ∙ kept.at
        ∙ sync_roles-makes S L T D r.channel_id w1 names x given listed made
        ∙ ap₂
            (λ v b. settled_role (wants S L T D v names x) b (ignored S T x || not (D.listed w1 x)))
            (message_store Q (str "Starting Role Sync") r.channel_id r.send_message w) before.at
