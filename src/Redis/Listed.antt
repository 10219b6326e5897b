-- ===== src/Redis/Listed.antt =====
-- KEYS with a pattern `word:*`, and the name at the end of a key.
use role_srv.Base.{
  List, ◌++◌, [], ◌∷◌, Str, str, =?-refl, ◌≡◌, refl, ap, ◌∙◌, true, ◌&&◌, ok, contains, when-ok,
  arith, last_part, split,
}
use role_srv.Base.Text.Split.{Lacks, last_part-split}
use role_srv.Redis.{Redis, RedisLaws, present, starts_with, is_plain}
use mathlib.Core.List.{append_assoc}

starts_with-append : (p s : Str) → starts_with p (p ++ s) ≡ true
starts_with-append [] s = refl
starts_with-append (c ∷ p) s = rw =?-refl (starts_with-append p s)

is_plain-append : (p q : Str) → is_plain p ≡ true → is_plain q ≡ true → is_plain (p ++ q) ≡ true
is_plain-append [] q h g = g
is_plain-append (c ∷ p) q h g = ground (arith, is_plain-append p q)

module _ {W : Type 0} (R : Redis W) (L : RedisLaws R) where
  key_behind : (tag name : Str) → R.key_name (tag ++ name) ≡ (L.prefix ++ (str ":" ++ tag)) ++ name
  key_behind tag name = L.key_name_lem _ ∙ simp append_assoc

  -- KEYS with a pattern `tag*` lists the keys behind the tag that hold something.
  pub contains-keys :
      (tag name : Str) (w : W) (ks : List Str)
      → is_plain (str ":" ++ tag) ≡ true
      → (R.keys (R.key_name (tag ++ str "*")) w).0 ≡ ok ks
      → contains ks (R.key_name (tag ++ name)) ≡ present (L.view w (R.key_name (tag ++ name)))
  contains-keys tag name w ks plain h =
      let k = R.key_name (tag ++ name) in
      let p = L.prefix ++ (str ":" ++ tag) in
      let h' = rw (key_behind tag (str "*")) at h in
      when-ok _ _ _ (L.keys_ok p w k (is_plain-append L.prefix _ L.prefix_plain plain)) h'
      ∙ ap (λ b. b && present (L.view w k))
          (ap (starts_with p) (key_behind tag name) ∙ starts_with-append p name)

  -- The last part of the key `word:name`.
  pub last_part-key_name :
      (word name : Str)
      → Lacks b':' name
      → last_part (split (R.key_name (word ++ b':' ∷ name)) b':') ≡ name
  last_part-key_name word name h =
      let e : R.key_name (word ++ b':' ∷ name) ≡ (L.prefix ++ (str ":" ++ word)) ++ (b':' ∷ name) =
        key_behind word (b':' ∷ name) in
      ap (λ k. last_part (split k b':')) e ∙ last_part-split _ b':' name h
