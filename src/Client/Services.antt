-- ===== src/Client/Services.antt =====
-- What the commands call: the role service through its stub (proto/roles.micro.go), the permissions
-- client of perms-srv, `StringSet`, the `command` package, the clock and the order of maps.
pub mod Keeping
use role_srv.Base.{
  ℕ, Bool, List, ◌∷◌, Str, str, split, Exec, Result, ok, err, panic, pure, crash, attempt, ◌>>=◌,
  if◌then◌else◌,
}
use role_srv.Proto.{Role, UpdateInfo, Filter, Members, SyncRequest, DiscordUser}
use role_srv.StringSets.{StringSets}

-- RolesService of proto/roles.micro.go.
pub record RolesService (World : Type 0) : Type 0 where
  pub add_role : Role → Exec World (Unit {0})
  pub update_role : UpdateInfo → Exec World (Unit {0})
  pub remove_role : Role → Exec World (Unit {0})
  pub get_roles : Exec World (List Role)
  pub get_role : Role → Exec World Role
  pub get_role_keys : Exec World (List Str)
  pub get_role_types : Exec World (List Str)
  pub get_role_membership : Str → Exec World (List Str)
  pub list_user_roles : Str → Exec World (List Role)
  pub get_filters : Exec World (List Filter)
  pub add_filter : Filter → Exec World (Unit {0})
  pub remove_filter : Filter → Exec World (Unit {0})
  pub get_members : Str → Exec World (List Str)
  pub add_members : Members → Exec World (Unit {0})
  pub remove_members : Members → Exec World (Unit {0})
  pub sync_to_chat_service : SyncRequest → Exec World (Unit {0})
  pub get_discord_user : Str → Exec World DiscordUser
  pub get_discord_user_list : Exec World (List DiscordUser)

pub record ClientServices : Type 1 where
  pub World : Type 0
  pub roles : RolesService World
  pub can_perform : Str → Exec World Bool
  pub sets : StringSets
  pub send_success : Str → Str
  pub send_error : Str → Str
  pub send_fatal : Str → Str
  pub order : List Str → List Str
  pub now : World → ℕ
  pub show_duration : ℕ → Str

abbrev pub denied : Str
denied = str "User doesn't have permission to this command"

-- `s[0], s[1]` of a sender: an index out of range is a panic.
abbrev pub sender_parts : {W : Type 0} → Bool → List Str → Exec W SyncRequest
sender_parts send (c ∷ u ∷ rest) =
    pure (record { channel_id = c; user_id = u; send_message = send })
sender_parts send _ = crash

-- GetSyncRequest
unfoldable pub get_sync_request : {W : Type 0} → Str → Bool → Exec W SyncRequest
get_sync_request sender send = sender_parts send (split sender b':')

module _ (C : ClientServices) where
  open C use {World, roles, can_perform, send_error, send_fatal}

  abbrev pub or_fatal_reply : {A : Type 0} → (A → Exec World Str) → Result A → Exec World Str
  or_fatal_reply next (ok a) = next a
  or_fatal_reply next (err e) = pure (send_fatal e)
  or_fatal_reply next panic = crash

  -- if err != nil { return common.SendFatal(err.Error()) }
  unfoldable pub or_fatal : {A : Type 0} → Exec World A → (A → Exec World Str) → Exec World Str
  or_fatal m next = attempt m >>= or_fatal_reply next

  -- The check of the sender's permission before a command.
  unfoldable pub permitted : Str → Exec World Str → Exec World Str
  permitted sender command =
      or_fatal (can_perform sender)
        (λ allowed. if allowed then command else pure (send_error denied))

  -- The synchronisation that follows a change.
  unfoldable pub sync_after : Str → Bool → Exec World (Unit {0})
  sync_after sender send = get_sync_request sender send >>= roles.sync_to_chat_service
