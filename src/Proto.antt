-- ===== src/Proto.antt =====
-- The messages of proto/roles.proto as proto/roles.pb.go declares them.
use role_srv.Base.{Bool, List, [], Str, ℤ, pos, false}

-- An int32 field is an integer; its range is a hypothesis where it matters.
pub record Role : Type 0 where
  pub type : Str
  pub short_name : Str
  pub filter_a : Str
  pub filter_b : Str
  pub sig : Bool
  pub joinable : Bool
  pub sync : Bool
  pub name : Str
  pub color : ℤ
  pub hoist : Bool
  pub position : ℤ
  pub permissions : ℤ
  pub managed : Bool
  pub mentionable : Bool

-- Go's zero value.
abbrev pub zero_role : Role
zero_role = record {
  type = [];
  short_name = [];
  filter_a = [];
  filter_b = [];
  sig = false;
  joinable = false;
  sync = false;
  name = [];
  color = pos 0;
  hoist = false;
  position = pos 0;
  permissions = pos 0;
  managed = false;
  mentionable = false;
}

pub record UpdateInfo : Type 0 where
  pub name : Str
  pub key : Str
  pub value : Str

pub record Filter : Type 0 where
  pub name : Str
  pub description : Str

pub record Members : Type 0 where
  pub name : List Str
  pub filter : Str

pub record SyncRequest : Type 0 where
  pub channel_id : Str
  pub user_id : Str
  pub send_message : Bool

pub record DiscordUser : Type 0 where
  pub id : Str
  pub username : Str
  pub discriminator : Str
  pub avatar : Str
  pub bot : Bool
  pub mfa_enabled : Bool
  pub verified : Bool
  pub email : Str
  pub nick : Str
