-- ===== src/Handler/Users.antt =====
-- GetDiscordUser and GetDiscordUserList of handler/Roles.go.
pub mod Found
use role_srv.Base.{List, [], ◌∷◌, Str, str, ◌=?◌, Exec, pure, raise, ◌>>=◌, if◌then◌else◌, map}
use role_srv.Proto.{DiscordUser}
use role_srv.Gateway.{Member, User}
use role_srv.Services.{Services}

-- GetDiscordUser leaves Id and Nick at their zero values.
unfoldable pub user_details : User → DiscordUser
user_details u = record {
  id = [];
  username = u.username;
  discriminator = u.discriminator;
  avatar = u.avatar;
  bot = u.bot;
  mfa_enabled = u.mfa_enabled;
  verified = u.verified;
  email = u.email;
  nick = [];
}

-- An entry of GetDiscordUserList.
unfoldable pub listed_user : Member → DiscordUser
listed_user m = record {
  nick = m.nick;
  id = m.user.id;
  username = m.user.username;
  discriminator = m.user.discriminator;
  avatar = m.user.avatar;
  bot = m.user.bot;
  mfa_enabled = m.user.mfa_enabled;
  verified = m.user.verified;
  email = m.user.email;
}

-- The loop over the members returns at the first match.
unfoldable pub find_user : {W : Type 0} → Str → List Member → Exec W DiscordUser
find_user id [] = raise (str "User not found")
find_user id (m ∷ ms) = if id =? m.user.id then pure (user_details m.user) else find_user id ms

module _ (S : Services) where
  open S use {World}
  open S.gateway use {get_all_members_as_slice}

  unfoldable pub get_discord_user : Str → Exec World DiscordUser
  get_discord_user id = do members ← get_all_members_as_slice; find_user id members

  unfoldable pub get_discord_user_list : Exec World (List DiscordUser)
  get_discord_user_list = do members ← get_all_members_as_slice; pure (map listed_user members)
