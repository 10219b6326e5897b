-- ===== src/Services.antt =====
-- What the handler is built from: the Redis client, the gateway, the sets, the configuration of
-- viper, the clock, `structs.Map` followed by the encoding of HMSET, and the `command` package.
use role_srv.Base.{ℕ, List, Str, Dict}
use role_srv.Proto.{Role}
use role_srv.Redis.{Redis}
use role_srv.StringSets.{StringSets}
use role_srv.Gateway.{Gateway}

pub record Services : Type 1 where
  pub World : Type 0
  pub redis : Redis World
  pub gateway : Gateway World
  pub sets : StringSets
  pub structs_map : Role → Dict Str
  pub ignored_roles : List Str
  pub bot_role : Str
  pub send_success : Str → Str
  pub send_fatal : Str → Str
  pub now : World → ℕ
  pub show_duration : ℕ → Str
  -- The order in which a loop over a map meets the keys that the map holds.
  pub order : List Str → List Str
