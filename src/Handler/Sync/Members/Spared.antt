-- ===== src/Handler/Sync/Members/Spared.antt =====
-- The users that the last loop of syncMembers does not touch.
use role_srv.Base.{
  ◌≡◌, ◌≢◌, ◌∙◌, refl, ap, arith, Bool, true, List, Str, str, ◌=?◌, =?-eq, =?_iff, Dict, Result, ok,
  err, panic, is_ok, WhenOk, attempt_reply, pure, attempt, Keeps, subst, >>=-at, keeps_rules,
  Bool-cases, inl, inr,
}
use role_srv.Redis.{RedisLaws, has}
use role_srv.Services.{Services}
use role_srv.Handler.Sync.Report.{report, send_message}
use role_srv.Handler.Sync.Members.Update.{update_one, apply_updates, after_update, is_no_sync}

-- What Discord and Redis promise of the calls of the loop: an update is of one user, and neither
-- service changes what the other holds.
pub record UpdateLaws (S : Services) (L : RedisLaws S.redis) : Type 0 where
  -- The user has the role of that id.
  pub has_role : S.World → Str → Str → Bool
  pub update_member_frame :
      (m : Str) (ids : List Str) (w : S.World) (n x : Str)
      → n ≢ m
      → has_role (S.gateway.update_member m ids w).1 n x ≡ has_role w n x
  pub send_message_frame :
      (c t : Str) (w : S.World) (n x : Str)
      → has_role (S.gateway.send_message c t w).1 n x ≡ has_role w n x
  pub s_is_member_frame :
      (k y : Str) (w : S.World) (n x : Str)
      → has_role (S.redis.s_is_member k y w).1 n x ≡ has_role w n x
  pub update_member_store :
      (m : Str) (ids : List Str) (w : S.World) (j : Str)
      → L.view (S.gateway.update_member m ids w).1 j ≡ L.view w j
  pub send_message_store :
      (c t : Str) (w : S.World) (j : Str) → L.view (S.gateway.send_message c t w).1 j ≡ L.view w j

module _ (S : Services) (L : RedisLaws S.redis) (U : UpdateLaws S L) (m x : Str) where
  -- members:no_sync
  abbrev pub no_sync_key : Str
  no_sync_key = S.redis.key_name (str "members:no_sync")

  -- As in `w`, the user has the role or not, and the list is as it was.
  pub record Spared (w v : S.World) : Type 0 where
    pub role : U.has_role v m x ≡ U.has_role w m x
    pub listed : L.view v no_sync_key ≡ L.view w no_sync_key

  module _ (w : S.World) where
    s_is_member-Spared : (k y : Str) → Keeps (Spared w) (S.redis.s_is_member k y)
    s_is_member-Spared k y = record {
      at = λ v h. record {
        role = U.s_is_member_frame k y v m x ∙ h.role;
        listed = L.s_is_member_frame k y v no_sync_key ∙ h.listed;
      };
    }

    send_message-Spared : (c t : Str) → Keeps (Spared w) (S.gateway.send_message c t)
    send_message-Spared c t = record {
      at = λ v h. record {
        role = U.send_message_frame c t v m x ∙ h.role;
        listed = U.send_message_store c t v no_sync_key ∙ h.listed;
      };
    }

    update_member-Spared :
        (n : Str) (ids : List Str) → m ≢ n → Keeps (Spared w) (S.gateway.update_member n ids)
    update_member-Spared n ids ne = record {
      at = λ v h. record {
        role = U.update_member_frame n ids v m x ne ∙ h.role;
        listed = U.update_member_store n ids v no_sync_key ∙ h.listed;
      };
    }

    ruleset spared_rules =
        (keeps_rules, s_is_member-Spared, send_message-Spared, update_member-Spared)

    report-Spared : (c place t : Str) → Keeps (Spared w) (report S c place t)
    unfolding report send_message
    report-Spared c place t = search spared_rules depth 12

    after_update-Spared : (c : Str) (r : Result (Unit {0})) → Keeps (Spared w) (after_update S c r)
    after_update-Spared c (ok a) = search spared_rules
    after_update-Spared c (err e) = report-Spared c _ e
    after_update-Spared c panic = search spared_rules

    pub update_one_other :
        (c : Str) (updates : Dict S.sets.StringSet) (n : Str)
        → m ≢ n
        → Keeps (Spared w) (update_one S c updates n)
    unfolding update_one
    update_one_other c updates n ne = search (spared_rules, after_update-Spared) depth 20

    -- The user is on the list, and the question whether the user is there gets a reply.
    IsProtected : Type 0
    IsProtected =
        (has (L.view w no_sync_key) m ≡ true)
        × ((v : S.World)
            → L.view v no_sync_key ≡ L.view w no_sync_key
            → is_ok (S.redis.s_is_member no_sync_key m v).0 ≡ true)

    no_sync_of :
        (q : Result Bool) (v : S.World) (r : Result Bool) (b : Bool)
        → (attempt_reply q v).0 ≡ ok r
        → is_ok q ≡ true
        → WhenOk q (λ a. a) b
        → b ≡ true
        → is_no_sync S r ≡ true
    no_sync_of (ok a) v r b e h k l = let q : r ≡ ok a = cc in ap (is_no_sync S) q ∙ k ∙ l
    no_sync_of (err t) v r b e h k l = cc
    no_sync_of panic v r b e h k l = cc

    update_one_self :
        (c : Str) (updates : Dict S.sets.StringSet)
        → IsProtected
        → Keeps (Spared w) (update_one S c updates m)
    unfolding update_one IsProtected pure attempt
    update_one_self c updates p = record {
      at = λ v h.
          let ask = S.redis.s_is_member no_sync_key m in
          let asked : Keeps (Spared w) (attempt ask) = search spared_rules in
          >>=-at (Spared w) (attempt ask) _ v (asked.at v h) λ r e.
            let on : is_no_sync S r ≡ true =
              no_sync_of (ask v).0 (ask v).1 r _ e (p.1 v h.listed)
                (L.s_is_member_ok no_sync_key m v) (ap (λ l. has l m) h.listed ∙ p.0) in
            rw on (asked.at v h);
    }

    update_one-Spared :
        (c : Str) (updates : Dict S.sets.StringSet)
        → IsProtected
        → (n : Str) → Keeps (Spared w) (update_one S c updates n)
    update_one-Spared c updates p n = elim (Bool-cases (m =? n)) [
      | inl e ↦
          subst (λ k. Keeps (Spared w) (update_one S c updates k)) (=?-eq m n e)
            (update_one_self c updates p)
      | inr e ↦ update_one_other c updates n (λ q. ground (arith, =?_iff m n))
    ]

    apply_updates-Spared :
        (c : Str) (updates : Dict S.sets.StringSet)
        → IsProtected
        → Keeps (Spared w) (apply_updates S c updates)
    unfolding apply_updates
    apply_updates-Spared c updates p =
        let one = update_one-Spared c updates p in search (keeps_rules, one)

  -- A user on the list members:no_sync keeps every role on Discord, whatever updates are planned and
  -- whatever else fails, if the questions whether the user is on the list get a reply.
  pub apply_updates-spares :
      (c : Str) (updates : Dict S.sets.StringSet) (w : S.World)
      → has (L.view w no_sync_key) m ≡ true
      → ((v : S.World)
          → L.view v no_sync_key ≡ L.view w no_sync_key
          → is_ok (S.redis.s_is_member no_sync_key m v).0 ≡ true)
      → U.has_role (apply_updates S c updates w).1 m x ≡ U.has_role w m x
  unfolding IsProtected
  apply_updates-spares c updates w h r =
      ((apply_updates-Spared w c updates (h, r)).at w (record { role = refl; listed = refl })).role
