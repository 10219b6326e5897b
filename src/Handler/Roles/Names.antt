-- ===== src/Handler/Roles/Names.antt =====
-- getRoles: the names that it reads off the keys.
use role_srv.Base.{
  List, [], ◌∷◌, ◌++◌, Str, str, ◌=?◌, =?-eq, =?-refl, ◌≡◌, refl, ap, ◌∙◌, true, ok, map, contains,
  subst, Ensures, >>=-Ensures, Ensures-pure, arith, Bool-cases, inl, inr,
}
use role_srv.Base.Text.Split.{Lacks, last_part-split-Lacks}
use role_srv.Redis.{RedisLaws, present, is_plain}
use role_srv.Redis.Listed.{contains-keys, last_part-key_name}
use role_srv.Services.{Services}
use role_srv.Handler.Keys.{role_key}
use role_srv.Handler.Roles.{role_name, role_names}

pub contains-map :
    (f : Str → Str) (xs : List Str) (x : Str)
    → contains xs x ≡ true
    → contains (map f xs) (f x) ≡ true
unfolding contains
contains-map f [] x h = cc
contains-map f (y ∷ ys) x h = elim (Bool-cases (y =? x)) [
  | inl e ↦ let q = ap f (=?-eq y x e) in rw q (rw =?-refl)
  | inr e ↦ ground (arith, contains-map f ys x)
]

pub contains-map_of :
    (f : Str → Str) (rs : List Str) (x : Str)
    → contains (map f rs) x ≡ true
    → (r : Str) × (contains rs r ≡ true) × (f r ≡ x)
unfolding contains
contains-map_of f [] x h = cc
contains-map_of f (r ∷ rs) x h = elim (Bool-cases (f r =? x)) [
  | inl e ↦ (r, rw =?-refl refl, =?-eq (f r) x e)
  | inr e ↦
      let (s, within, q) = contains-map_of f rs x (rw e at h) in (s, ground (arith, within), q)
]

role_is_plain : is_plain (str ":" ++ str "role:") ≡ true
unfolding str contains ◌=?◌
role_is_plain = refl

module _ (S : Services) (L : RedisLaws S.redis) where
  -- The name of a role's key.
  role_name-role_key : (name : Str) → Lacks b':' name → role_name (role_key S name) ≡ name
  unfolding role_name str
  role_name-role_key name h = last_part-key_name S.redis L (str "role") name h

  role_names-Ensures :
      (name : Str) (w : S.World)
      → Lacks b':' name
      → present (L.view w (role_key S name)) ≡ true
      → Ensures (role_names S) w (λ ns _. contains ns name ≡ true)
  unfolding role_names
  role_names-Ensures name w lacks there = >>=-Ensures _ _ λ ks e. Ensures-pure _ (
      rw (role_name-role_key name lacks) at (
        contains-map role_name ks (role_key S name)
          (contains-keys S.redis L (str "role:") name w ks role_is_plain e ∙ there)))

  -- Every role of the store whose name has no colon is among the names that getRoles lists.
  pub role_names_complete :
      (name : Str) (w : S.World) (ns : List Str)
      → Lacks b':' name
      → present (L.view w (role_key S name)) ≡ true
      → (role_names S w).0 ≡ ok ns
      → contains ns name ≡ true
  role_names_complete name w ns lacks there h = (role_names-Ensures name w lacks there).holds ns h

  names-Lacks :
      (w : S.World)
      → Ensures (role_names S) w (λ ns _. (n : Str) → contains ns n ≡ true → Lacks b':' n)
  unfolding role_names role_name
  names-Lacks w = >>=-Ensures _ _ λ ks e. Ensures-pure _ λ n h.
      let (k, within, q) = contains-map_of role_name ks n h in
      subst (Lacks b':') q (last_part-split-Lacks k b':')

  -- The names that getRoles lists have no colon.
  pub role_names-Lacks :
      (w : S.World) (ns : List Str) (n : Str)
      → (role_names S w).0 ≡ ok ns
      → contains ns n ≡ true
      → Lacks b':' n
  role_names-Lacks w ns n h k = (names-Lacks w).holds ns h n k
