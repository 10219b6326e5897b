-- ===== src/Handler/Roles/Summary.antt =====
-- The roles that GetRoles lists.
use role_srv.Base.{
  ◌≡◌, ◌∙◌, refl, ap, ap₂, fun_ext, not, List, [], ◌∷◌, Str, str, ◌=?◌, Bool, Option, or_empty, at,
  lookup, Dict, Exec, pure, ◌>>=◌, ok, for_each, Ensures, >>=-Ensures, Ensures-pure, when-ok,
}
use role_srv.Proto.{Role, zero_role}
use role_srv.Redis.{RedisLaws, Entry, field}
use role_srv.Services.{Services}
use role_srv.Handler.Keys.{role_key}
use role_srv.Handler.Roles.{role_names, role_summary, get_roles}
use role_srv.Handler.Reads.{role_names-Keeps}

-- A flag is on unless its text is `0`: a missing flag is on.
abbrev pub is_on : Option Str → Bool
is_on o = not (or_empty o =? str "0")

-- What a hash with such fields is listed as: its key's name, its Name and three flags.
abbrev pub summary : (Str → Option Str) → Str → Role
summary p key = record zero_role {
  short_name = key;
  name = or_empty (p (str "Name"));
  sig = is_on (p (str "Sig"));
  joinable = is_on (p (str "Joinable"));
  sync = is_on (p (str "Sync"));
}

role_summary-summary :
    (S : Services) (key : Str) (d : Dict Str) (p : Str → Option Str)
    → ((f : Str) → lookup f d ≡ p f)
    → role_summary S key d ≡ summary p key
unfolding role_summary at
role_summary-summary S key d p h = ap (λ q. summary q key) (fun_ext h)

module _ (S : Services) where
  abbrev pub summaries : (Str → Entry) → List Str → List Role
  summaries v [] = []
  summaries v (n ∷ ns) = summary (field (v (role_key S n))) n ∷ summaries v ns

  -- One round of the loop of GetRoles.
  abbrev round : Str → Exec S.World Role
  round name = S.redis.h_get_all (role_key S name) >>= λ info. pure (role_summary S name info)

module _ (S : Services) (L : RedisLaws S.redis) where
  round-Ensures :
      (n : Str) (w : S.World)
      → Ensures
          (round S n)
          w
          (λ r w'. (r ≡ summary (field (L.view w (role_key S n))) n) × (L.view w' ≡ L.view w))
  round-Ensures n w = >>=-Ensures _ _ λ info e. Ensures-pure _ (
    role_summary-summary S n info _ (λ f. when-ok _ _ _ (L.h_get_all_ok (role_key S n) w f) e),
    fun_ext (L.h_get_all_frame (role_key S n) w),
  )

  summaries_from :
      (ns : List Str) (w : S.World)
      → Ensures (for_each (round S) ns) w (λ rs _. rs ≡ summaries S (L.view w) ns)
  unfolding for_each
  summaries_from [] w = Ensures-pure [] refl
  summaries_from (n ∷ ns) w = >>=-Ensures _ _ λ r e.
      let (one, kept) = (round-Ensures n w).holds r e in
      >>=-Ensures _ _ λ rs f. Ensures-pure _ (
        ap₂ (λ x xs. x ∷ xs) one
          ((summaries_from ns _).holds rs f ∙ ap (λ v. summaries S v ns) kept))

  get_roles-Ensures :
      (w : S.World) (names : List Str)
      → (role_names S w).0 ≡ ok names
      → Ensures (get_roles S) w (λ rs _. rs ≡ summaries S (L.view w) names)
  unfolding get_roles
  get_roles-Ensures w names h = >>=-Ensures _ _ λ ns e. record {
    holds = λ rs f.
        let same : ns ≡ names = cc in
        let kept : L.view (role_names S w).1 ≡ L.view w =
          fun_ext λ j. ((role_names-Keeps S L j (L.view w j)).at w (record { at = refl })).at in
        (summaries_from ns _).holds rs f ∙ ap₂ (λ l v. summaries S v l) same kept;
  }

  -- A GetRoles that succeeds replies with every role that getRoles lists, in that order: its short
  -- name, its stored Name, and the flags Sig, Joinable and Sync, each on unless `0` is stored.
  pub get_roles-lists :
      (w : S.World) (names : List Str) (rs : List Role)
      → (role_names S w).0 ≡ ok names
      → (get_roles S w).0 ≡ ok rs
      → rs ≡ summaries S (L.view w) names
  get_roles-lists w names rs h k = (get_roles-Ensures w names h).holds rs k
