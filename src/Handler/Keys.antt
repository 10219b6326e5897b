-- ===== src/Handler/Keys.antt =====
-- The Redis keys of handler/Roles.go, and the tests that its handlers share.
pub mod Distinct
use role_srv.Base.{List, [], ◌∷◌, ◌++◌, Str, str, Bool, contains}
use role_srv.Services.{Services}

-- `for _, b := range list { if b == a { return true } }; return false`
unfoldable pub valid_list_item : Str → List Str → Bool
unfolding contains
valid_list_item a list = contains list a

abbrev pub role_keys : List Str
role_keys =
    str "Name"
    ∷ str "Color"
    ∷ str "Hoist"
    ∷ str "Position"
    ∷ str "Permissions"
    ∷ str "Managed"
    ∷ str "Mentionable"
    ∷ str "Sync"
    ∷ []

abbrev pub role_types : List Str
role_types = str "internal" ∷ str "discord" ∷ []

module _ (S : Services) where
  -- h.Redis.KeyName(fmt.Sprintf("role:%s", name)), and so on
  abbrev pub role_key : Str → Str
  role_key name = S.redis.key_name (str "role:" ++ name)

  abbrev pub description_key : Str → Str
  description_key name = S.redis.key_name (str "filter_description:" ++ name)

  abbrev pub members_key : Str → Str
  members_key name = S.redis.key_name (str "filter_members:" ++ name)
