-- ===== src/Handler/Keys/Distinct.antt =====
-- Different things have different keys.
use role_srv.Base.{[], ◌∷◌, ◌++◌, Str, str, ◌≡◌, ◌≢◌, arith, ap, sym, ◌∙◌}
use role_srv.Redis.{RedisLaws}
use role_srv.Services.{Services}
use role_srv.Handler.Keys.{role_key, description_key, members_key}

abbrev tail : Str → Str
tail [] = []
tail (c ∷ s) = s

append_cancel : (p x y : Str) → p ++ x ≡ p ++ y → x ≡ y
append_cancel [] x y h = h
append_cancel (c ∷ p) x y h = append_cancel p x y (ap tail h)

module _ (S : Services) (L : RedisLaws S.redis) where
  key_name-injective : (a b : Str) → S.redis.key_name a ≡ S.redis.key_name b → a ≡ b
  key_name-injective a b h =
      append_cancel (str ":") a b
        (append_cancel L.prefix _ _ (sym (L.key_name_lem a) ∙ h ∙ L.key_name_lem b))

  pub role_key-injective : (a b : Str) → role_key S a ≡ role_key S b → a ≡ b
  role_key-injective a b h = append_cancel (str "role:") a b (key_name-injective _ _ h)

  pub description_key-injective : (a b : Str) → description_key S a ≡ description_key S b → a ≡ b
  description_key-injective a b h =
      append_cancel (str "filter_description:") a b (key_name-injective _ _ h)

  pub members_key-injective : (a b : Str) → members_key S a ≡ members_key S b → a ≡ b
  members_key-injective a b h = append_cancel (str "filter_members:") a b (key_name-injective _ _ h)

  pub role-ne-description : (a b : Str) → role_key S a ≢ description_key S b
  unfolding str
  role-ne-description a b h = ground (arith, key_name-injective _ _ h)

  pub role-ne-members : (a b : Str) → role_key S a ≢ members_key S b
  unfolding str
  role-ne-members a b h = ground (arith, key_name-injective _ _ h)

  pub description-ne-members : (a b : Str) → description_key S a ≢ members_key S b
  unfolding str
  description-ne-members a b h = ground (arith, key_name-injective _ _ h)
