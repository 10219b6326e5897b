-- ===== src/Client/Sigs/Keeping.antt =====
-- What a command on a SIG keeps, behind the reading of the role, where the calls keep it.
use role_srv.Base.{
  ◌≡◌, Bool, false, Str, List, [], ◌∷◌, Exec, Result, ok, err, panic, attempt, Keeps, Keeps-pure,
  Keeps-crash, Keeps-bind, Keeps-attempt, Keeps-if,
}
use role_srv.Proto.{Role, SyncRequest, DiscordUser}
use role_srv.Client.Services.{ClientServices, sync_after}
use role_srv.Client.Services.Keeping.{sync_after-Keeps}
use role_srv.Client.Names.{map_name, map_reply, any_member}
use role_srv.Client.Sigs.{
  or_error, or_error_reply, sender_user, first_name, change_member, sig_reply, sig_change,
}

module _ {W : Type 0} (P : W → Type 0) where
  sender_user-Keeps : (s : List Str) → Keeps P (sender_user s)
  unfolding sender_user
  sender_user-Keeps [] = Keeps-crash
  sender_user-Keeps (c ∷ []) = Keeps-crash
  sender_user-Keeps (c ∷ u ∷ rest) = Keeps-pure u

  first_name-Keeps : (s : List Str) → Keeps P (first_name s)
  unfolding first_name
  first_name-Keeps [] = Keeps-crash
  first_name-Keeps (n ∷ ns) = Keeps-pure n

-- What the calls keep that follow the change of a filter.
pub record After (C : ClientServices) (P : C.World → Type 0) : Type 0 where
  pub sync : (r : SyncRequest) → Keeps P (C.roles.sync_to_chat_service r)
  pub users : Keeps P C.roles.get_discord_user_list

-- The same, and the change of the filter itself.
pub record Kept (C : ClientServices) (P : C.World → Type 0) (filter : Str) : Type 0 where
  pub add : (x : List Str) → Keeps P (C.roles.add_members (record { name = x; filter = filter }))
  pub remove :
      (x : List Str) → Keeps P (C.roles.remove_members (record { name = x; filter = filter }))
  pub after : After C P

module _ (C : ClientServices) (P : C.World → Type 0) where
  or_error_reply-Keeps :
      {A : Type 0} (next : A → Exec C.World Str)
      → ((a : A) → Keeps P (next a))
      → (r : Result A) → Keeps P (or_error_reply C next r)
  or_error_reply-Keeps next k (ok a) = k a
  or_error_reply-Keeps next k (err e) = Keeps-pure _
  or_error_reply-Keeps next k panic = Keeps-crash

  or_error-Keeps :
      {A : Type 0} (m : Exec C.World A) (next : A → Exec C.World Str)
      → Keeps P m
      → ((a : A) → Keeps P (next a))
      → Keeps P (or_error C m next)
  unfolding or_error
  or_error-Keeps m next h k =
      Keeps-bind (attempt m) _ (Keeps-attempt m h) (or_error_reply-Keeps next k)

  map_reply-Keeps : (ms : List Str) (r : Result (List DiscordUser)) → Keeps P (map_reply C ms r)
  map_reply-Keeps ms (ok us) = Keeps-pure _
  map_reply-Keeps ms (err e) = Keeps-if (any_member ms) _ _ Keeps-crash (Keeps-pure _)
  map_reply-Keeps ms panic = Keeps-crash

  module _ (K : After C P) where
    sig_reply-Keeps : (sender sig : Str) (join : Bool) → Keeps P (sig_reply C sender sig join)
    unfolding sig_reply map_name
    sig_reply-Keeps sender sig join = Keeps-bind _ _ (sender_user-Keeps P _) λ user.
        Keeps-bind _ _ (Keeps-bind _ _ (Keeps-attempt _ K.users) (map_reply-Keeps (user ∷ [])))
          λ p. Keeps-bind _ _ (first_name-Keeps P _) λ name. Keeps-pure _

    -- The synchronisation and the reply.
    pub sig_rest-Keeps :
        (sender sig : Str) (join : Bool)
        → Keeps P (or_error C (sync_after C sender false) (λ _. sig_reply C sender sig join))
    sig_rest-Keeps sender sig join =
        or_error-Keeps _ _ (sync_after-Keeps C P K.sync sender false)
          λ _. sig_reply-Keeps sender sig join

  module _ (filter : Str) (K : Kept C P filter) where
    change_member-Keeps :
        (sender : Str) (role : Role) (join : Bool)
        → role.filter_b ≡ filter
        → Keeps P (change_member C sender role join)
    unfolding change_member
    change_member-Keeps sender role join e =
        Keeps-bind _ _ (sender_user-Keeps P _)
          λ user. Keeps-if join _ _ (rw e (K.add (user ∷ []))) (rw e (K.remove (user ∷ [])))

    pub sig_change-Keeps :
        (sender sig : Str) (role : Role) (join : Bool)
        → role.filter_b ≡ filter
        → Keeps P (sig_change C sender sig role join)
    unfolding sig_change
    sig_change-Keeps sender sig role join e =
        or_error-Keeps _ _ (change_member-Keeps sender role join e)
          λ _. sig_rest-Keeps K.after sender sig join
