-- ===== src/Handler/Sync/Members/Applied.antt =====
-- The roles that a user has behind the last loop of syncMembers.
use role_srv.Base.{
  ◌≡◌, ◌∙◌, ap, sym, refl, arith, Bool, false, List, [], ◌∷◌, Str, str, ◌=?◌, =?-eq, =?_iff, Dict,
  lookup, keys, contains, contains-keys, is_some, Result, ok, err, panic, WhenOk, for_each,
  if◌then◌else◌, Ensures, >>=-Ensures, attempt-Ensures, Ensures-pure, Keeps, subst, Keeps-crash,
  Keeps-pure, Bool-cases, inl, inr,
}
use role_srv.Redis.{RedisLaws, Entry, has}
use role_srv.Redis.Frames.{Holds, redis_frames}
use role_srv.StringSets.{StringSetLaws}
use role_srv.Services.{Services}
use role_srv.Handler.Sync.Report.{report, send_message}
use role_srv.Handler.Sync.Members.Gather.{or_new}
use role_srv.Handler.Sync.Members.Given.{planned, MeetsKeys}
use role_srv.Handler.Sync.Members.Update.{update_one, apply_updates, after_update, is_no_sync}
use role_srv.Handler.Sync.Members.Spared.{update_one_other}
use role_srv.Handler.Sync.Members.Server.{Server, ServerLaws}

module _ (S : Services) where
  not_no_sync :
      (r : Result Bool) (b : Bool) → WhenOk r (λ a. a) b → b ≡ false → is_no_sync S r ≡ false
  not_no_sync (ok a) b h e = h ∙ e
  not_no_sync (err t) b h e = refl
  not_no_sync panic b h e = refl

module _ (S : Services) (L : RedisLaws S.redis) (T : StringSetLaws S.sets) (D : Server S L)
    (Q : ServerLaws S L D) where
  open S.sets use {StringSet, range}

  module _ (j : Str) (e : Entry) where
    update_member-Holds :
        (m : Str) (ids : List Str) → Keeps (Holds S.redis L j e) (S.gateway.update_member m ids)
    update_member-Holds m ids = record {
      at = λ w h. record { at = D.updates.update_member_store m ids w j ∙ h.at };
    }

    gateway_message-Holds : (c t : Str) → Keeps (Holds S.redis L j e) (S.gateway.send_message c t)
    gateway_message-Holds c t = record {
      at = λ w h. record { at = D.updates.send_message_store c t w j ∙ h.at };
    }

    report-Holds : (c p t : Str) → Keeps (Holds S.redis L j e) (report S c p t)
    unfolding report send_message
    report-Holds c p t = search (redis_frames, gateway_message-Holds) depth 12

    after_update-Holds :
        (c : Str) (r : Result (Unit {0})) → Keeps (Holds S.redis L j e) (after_update S c r)
    after_update-Holds c (ok a) = Keeps-pure _
    after_update-Holds c (err t) = report-Holds c _ t
    after_update-Holds c panic = Keeps-crash

    update_one-Holds :
        (c : Str) (updates : Dict StringSet) (n : Str)
        → Keeps (Holds S.redis L j e) (update_one S c updates n)
    unfolding update_one
    update_one-Holds c updates n =
        search (redis_frames, update_member-Holds, after_update-Holds) depth 20

  module _ (m : Str) where
    -- members:no_sync
    abbrev pub list_key : Str
    list_key = S.redis.key_name (str "members:no_sync")

    -- Discord makes every update of the user.
    abbrev pub Updates : Type 0
    Updates = (ids : List Str) (v : S.World) → (S.gateway.update_member m ids v).0 ≡ ok tt

    module _ (c : Str) (updates : Dict StringSet) (x : Str) (e : Entry) where
      update_one_self :
          (v : S.World)
          → Updates
          → has e m ≡ false
          → Holds S.redis L list_key e v
          → Ensures
              (update_one S c updates m)
              v
              (λ _ v'. D.updates.has_role v' m x ≡ planned S T updates m x)
      unfolding update_one
      update_one_self v done off h =
          let ids = range (or_new S (lookup m updates)) in
          let v1 = (S.redis.s_is_member list_key m v).1 in
          let free : is_no_sync S (S.redis.s_is_member list_key m v).0 ≡ false =
            not_no_sync S (S.redis.s_is_member list_key m v).0 _ (L.s_is_member_ok list_key m v)
              (ap (λ l. has l m) h.at ∙ off) in
          attempt-Ensures _ _ v (
            rw free (
              attempt-Ensures _ _ v1 (
                rw (done ids v1) (
                  Ensures-pure tt (
                    Q.update_member_ok m ids v1 x (done ids v1)
                    ∙ T.contains-range (or_new S (lookup m updates)) x)))))

      updates_from :
          (ns : List Str) (v : S.World)
          → Updates
          → has e m ≡ false
          → Holds S.redis L list_key e v
          → Ensures (for_each (update_one S c updates) ns) v (λ _ v'.
            D.updates.has_role v' m x
            ≡ (if contains ns m then planned S T updates m x else D.updates.has_role v m x))
      unfolding for_each contains
      updates_from [] v done off h = Ensures-pure [] refl
      updates_from (n ∷ ns) v done off h = >>=-Ensures _ _ λ y one. >>=-Ensures _ _ λ ys rest.
          let v1 = (update_one S c updates n v).1 in
          let now = (update_one-Holds list_key e c updates n).at v h in
          let later = (updates_from ns v1 done off now).holds ys rest in
          let step : D.updates.has_role v1 m x
              ≡ (if n =? m then planned S T updates m x else D.updates.has_role v m x) =
            elim (Bool-cases (n =? m)) [
              | inl q ↦
                  let self =
                    subst
                      (λ k.
                        Ensures (update_one S c updates k) v
                          (λ _ v'. D.updates.has_role v' m x ≡ planned S T updates m x))
                      (sym (=?-eq n m q)) (update_one_self v done off h) in
                  self.holds y one ∙ rw q refl
              | inr q ↦
                  let other =
                    update_one_other S L D.updates m x v c updates n
                      (λ s. ground (arith, =?_iff n m)) in
                  (other.at v (record { role = refl; listed = refl })).role ∙ rw q refl
            ] in
          Ensures-pure _ (later ∙ ground (arith, step))

  -- If a loop over a map meets exactly its keys and Discord makes every update of the user, then a
  -- user that is not on the list members:no_sync has behind the loop exactly the planned roles. A
  -- user for whom nothing is planned has the roles as before.
  pub apply_updates-Ensures :
      (m c x : Str) (updates : Dict StringSet) (w : S.World)
      → MeetsKeys S T
      → Updates m
      → has (L.view w (list_key m)) m ≡ false
      → Ensures (apply_updates S c updates) w (λ _ v. D.updates.has_role v m x ≡ (
          if is_some (lookup m updates) then planned S T updates m x else D.updates.has_role w m x))
  unfolding apply_updates
  apply_updates-Ensures m c x updates w meets done off = >>=-Ensures _ _ λ ys e.
      let loop =
        updates_from m c updates x (L.view w (list_key m)) (S.order (keys updates)) w done off
          (record { at = refl }) in
      Ensures-pure tt (
        loop.holds ys e
        ∙ ap (λ b. if b then planned S T updates m x else D.updates.has_role w m x)
            (meets (keys updates) m ∙ contains-keys updates m))
