-- ===== src/Client/Sigs.antt =====
-- The commands of client/sigs.go.
pub mod Keeping
use role_srv.Base.{
  Bool, true, false, not, ◌&&◌, List, [], ◌∷◌, ◌++◌, Str, str, split, Exec, Result, ok, err, panic,
  pure, crash, attempt, ◌>>=◌, if◌then◌else◌,
}
use role_srv.Proto.{Role, zero_role, Members}
use role_srv.Client.Services.{ClientServices, sync_after}
use role_srv.Client.Names.{map_name}

-- `s[1]`
unfoldable pub sender_user : {W : Type 0} → List Str → Exec W Str
sender_user (c ∷ u ∷ rest) = pure u
sender_user _ = crash

-- `outputName[0]`
unfoldable pub first_name : {W : Type 0} → List Str → Exec W Str
first_name [] = crash
first_name (n ∷ ns) = pure n

module _ (C : ClientServices) where
  open C use {World, roles, send_success, send_error}

  abbrev pub or_error_reply : {A : Type 0} → (A → Exec World Str) → Result A → Exec World Str
  or_error_reply next (ok a) = next a
  or_error_reply next (err e) = pure (send_error e)
  or_error_reply next panic = crash

  -- if err != nil { return common.SendError(err.Error()) }
  unfoldable pub or_error : {A : Type 0} → Exec World A → (A → Exec World Str) → Exec World Str
  or_error m next = attempt m >>= or_error_reply next

  -- The change of the filter B of a role for the sender.
  unfoldable pub change_member : Str → Role → Bool → Exec World (Unit {0})
  change_member sender role join = do
    user ← sender_user (split sender b':')
    let change : Members = record { name = user ∷ []; filter = role.filter_b }
    if join then roles.add_members change else roles.remove_members change

  abbrev pub sig_text : Bool → Str → Str → Str
  sig_text true name sig = str "Added " ++ (name ++ (str " to " ++ sig))
  sig_text false name sig = str "Removed " ++ (name ++ (str " from " ++ sig))

  -- The reply: the error of MapName is not looked at.
  unfoldable pub sig_reply : Str → Str → Bool → Exec World Str
  sig_reply sender sig join = do
    user ← sender_user (split sender b':')
    (mapped, e) ← map_name C (user ∷ [])
    name ← first_name mapped.names
    pure (send_success (sig_text join name sig))

  -- The change, the synchronisation and the reply.
  unfoldable pub sig_change : Str → Str → Role → Bool → Exec World Str
  sig_change sender sig role join =
      or_error (change_member sender role join)
        (λ _. or_error (sync_after C sender false) (λ _. sig_reply sender sig join))

  unfoldable pub sig_action : Str → Str → Bool → Bool → Exec World Str
  sig_action sender sig join joinable =
      let ask = roles.get_role (record zero_role { short_name = sig }) in
      or_error ask (λ foo.
        let second = or_error ask (λ role.
          let change = sig_change sender sig role join in
          if joinable && not role.joinable
          then pure
              (send_error (str "'" ++ (sig ++ str "' is not a joinable SIG, talk to an admin")))
          else change) in
        if foo.sig then second else pure (send_error (str "Not a SIG")))

  unfoldable pub add_sig : Str → Str → Exec World Str
  add_sig sender sig = sig_action sender sig true false

  unfoldable pub remove_sig : Str → Str → Exec World Str
  remove_sig sender sig = sig_action sender sig false false

  unfoldable pub join_sig : Str → Str → Exec World Str
  join_sig sender sig = sig_action sender sig true true

  unfoldable pub leave_sig : Str → Str → Exec World Str
  leave_sig sender sig = sig_action sender sig false false
