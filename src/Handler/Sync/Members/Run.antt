-- ===== src/Handler/Sync/Members/Run.antt =====
-- syncMembers as a whole.
use role_srv.Base.{
  ℕ, Bool, [], ◌++◌, ◌-◌, Str, str, Option, none, some, Exec, pure, gets, ◌>>=◌, ◌>>◌, fold_each,
  keys, length, pos,
}
use role_srv.Strconv.{format_int}
use role_srv.Services.{Services}
use role_srv.Handler.Roles.{role_names}
use role_srv.Handler.Sync.Report.{reporting, send_dual_message}
use role_srv.Handler.Sync.Members.Gather.{Gathered, gather_pages, start, gather_role, role_name_map}
use role_srv.Handler.Sync.Members.Update.{update_members, apply_updates}

module _ (S : Services) where
  open S use {World, gateway, now, show_duration}

  -- fmt.Sprintf("... [%s]", time.Since(t))
  unfoldable pub since : Str → ℕ → World → Str
  since what t w = what ++ (str " [" ++ (show_duration (now w - t) ++ str "]"))

  unfoldable pub send_since : Str → ℕ → Str → Bool → Exec World (Unit {0})
  send_since what t channel send = do
    message ← gets (since what t)
    send_dual_message S message channel send

  -- What follows the reading of the members.
  unfoldable pub sync_gathered : Str → Bool → Gathered S → Exec World (Unit {0})
  sync_gathered channel send g = do
    t2 ← gets now
    roles ← reporting S channel (str "syncMembers: GetAllRoles: ") gateway.get_all_roles
    send_since (str "Got all Discord roles") t2 channel send
    t3 ← gets now
    names ← reporting S channel (str "syncMembers: getRoles: ") (role_names S)
    send_since (str "Got all Chremoas roles") t3 channel send
    t4 ← gets now
    chremoas ← fold_each (gather_role S channel) names g.chremoas
    send_since (str "Got all role Memberships") t4 channel send
    t5 ← gets now
    let updates = update_members S (role_name_map roles []) g chremoas
    send_dual_message S
        (str "Updating " ++ (format_int (pos (length (keys updates))) ++ str " discord users"))
        channel send
    apply_updates S channel updates
    send_since (str "Updated Discord Roles") t5 channel send

  abbrev pub sync_found : Str → Bool → ℕ → Option (Gathered S) → Exec World (Option (Unit {0}))
  sync_found channel send t none = pure none
  sync_found channel send t (some g) = do
    send_since (str "Got all Discord members") t channel send
    sync_gathered channel send g
    pure (some tt)

  -- `none` means that the fuel for the pages of members ran out.
  unfoldable pub sync_members : ℕ → Str → Bool → Exec World (Option (Unit {0}))
  sync_members fuel channel send = do
    t ← gets now
    g ← gather_pages S channel fuel (start S)
    sync_found channel send t g
