-- ===== src/Gateway.antt =====
-- The Discord gateway service as the role service calls it (discord-gateway/proto).
use role_srv.Base.{Bool, List, Str, ℤ, ℕ, Exec}

pub record User : Type 0 where
  pub id : Str
  pub email : Str
  pub username : Str
  pub avatar : Str
  pub discriminator : Str
  pub verified : Bool
  pub mfa_enabled : Bool
  pub bot : Bool

pub record DiscordRole : Type 0 where
  pub id : Str
  pub name : Str

pub record Member : Type 0 where
  pub nick : Str
  pub user : User
  pub roles : List DiscordRole

pub record EditRoleRequest : Type 0 where
  pub name : Str
  pub color : ℤ
  pub perm : ℤ
  pub position : ℤ
  pub hoist : Bool
  pub mention : Bool
  pub managed : Bool

pub record Gateway (World : Type 0) : Type 0 where
  -- A page of at most so many members, after the given member's id.
  pub get_all_members : ℕ → Str → Exec World (List Member)
  pub get_all_members_as_slice : Exec World (List Member)
  pub get_all_roles : Exec World (List DiscordRole)
  pub create_role : Str → Exec World (Unit {0})
  pub delete_role : Str → Exec World (Unit {0})
  pub edit_role : EditRoleRequest → Exec World (Unit {0})
  -- Operation ADD_OR_UPDATE_ROLES on a user, with the ids of the roles to have.
  pub update_member : Str → List Str → Exec World (Unit {0})
  -- A message to a channel.
  pub send_message : Str → Str → Exec World (Unit {0})
