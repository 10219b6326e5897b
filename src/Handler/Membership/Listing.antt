-- ===== src/Handler/Membership/Listing.antt =====
-- The roles that ListUserRoles lists.
use mathlib.Core.List.{append-nil, append_assoc}
use role_srv.Base.{
  ◌≡◌, ◌∙◌, refl, sym, ap, ap₂, fun_ext, Bool, true, false, List, [], ◌∷◌, ◌++◌, Str, str, Option,
  or_empty, at, lookup, Dict, ok, fold_each, Ensures, >>=-Ensures, Ensures-pure, Bool-cases, inl,
  inr,
}
use role_srv.Strconv.{parse_int, parse_bool}
use role_srv.Proto.{Role}
use role_srv.Redis.{RedisLaws, Entry, field, has}
use role_srv.StringSets.{StringSetLaws}
use role_srv.Services.{Services}
use role_srv.Handler.Keys.{role_key, members_key}
use role_srv.Handler.Roles.{role_names, map_role_to_protobuf_role}
use role_srv.Handler.Roles.Find.{find_role-fields, find_role-Keeps}
use role_srv.Handler.Reads.{role_names-Keeps, role_membership-Keeps}
use role_srv.Handler.Membership.{role_membership, add_if_member, list_user_roles}
use role_srv.Handler.Membership.Who.{fits, role_membership-decides}

-- The role that a hash with such fields stands for: a missing text is empty, a missing or malformed
-- flag is false.
abbrev pub stored_role : (Str → Option Str) → Role
stored_role p =
    let read = λ (f : Str). or_empty (p f) in
    record {
      type = read (str "Type");
      short_name = read (str "ShortName");
      filter_a = read (str "FilterA");
      filter_b = read (str "FilterB");
      sig = parse_bool (read (str "Sig"));
      joinable = parse_bool (read (str "Joinable"));
      sync = parse_bool (read (str "Sync"));
      name = read (str "Name");
      color = parse_int (read (str "Color")) 32;
      hoist = parse_bool (read (str "Hoist"));
      position = parse_int (read (str "Position")) 32;
      permissions = parse_int (read (str "Permissions")) 32;
      managed = parse_bool (read (str "Managed"));
      mentionable = parse_bool (read (str "Mentionable"));
    }

pub map_role-stored_role :
    (d : Dict Str) (p : Str → Option Str)
    → ((f : Str) → lookup f d ≡ p f)
    → map_role_to_protobuf_role d ≡ stored_role p
unfolding map_role_to_protobuf_role at
map_role-stored_role d p h = ap stored_role (fun_ext h)

abbrev pub one_if : Bool → Role → List Role
one_if true r = r ∷ []
one_if false r = []

module _ (S : Services) where
  -- The role's filters, as the store holds them, let the user in.
  abbrev pub lets_in : (Str → Entry) → Str → Str → Bool
  lets_in v user role =
      let a = or_empty (field (v (role_key S role)) (str "FilterA")) in
      let b = or_empty (field (v (role_key S role)) (str "FilterB")) in
      fits a b user (has (v (members_key S a)) user) (has (v (members_key S b)) user)

  abbrev pub listed_one : (Str → Entry) → Str → Str → List Role
  listed_one v user role = one_if (lets_in v user role) (stored_role (field (v (role_key S role))))

  -- The roles that let the user in, in the order of their names.
  abbrev pub listed_roles : (Str → Entry) → Str → List Str → List Role
  listed_roles v user [] = []
  listed_roles v user (n ∷ ns) = listed_one v user n ++ listed_roles v user ns

module _ (S : Services) (L : RedisLaws S.redis) (T : StringSetLaws S.sets) where
  add_if_member-Ensures :
      (user role : Str) (found : List Role) (w : S.World)
      → Ensures
          (add_if_member S user role found)
          w
          (λ r w'. (r ≡ found ++ listed_one S (L.view w) user role) × (L.view w' ≡ L.view w))
  unfolding add_if_member
  add_if_member-Ensures user role found w = >>=-Ensures _ _ λ members e.
      let decided : S.sets.has members user ≡ lets_in S (L.view w) user role =
        role_membership-decides S L T role user w members e in
      let w1 = (role_membership S role w).1 in
      let kept : L.view w1 ≡ L.view w =
        fun_ext
          λ j. ((role_membership-Keeps S L j (L.view w j) role).at w (record { at = refl })).at in
      let k = role_key S role in
      let one : Role = stored_role (field (L.view w k)) in
      elim (Bool-cases (S.sets.has members user)) [
        | inl t ↦ rw t (
            >>=-Ensures _ _ λ info f.
              let read : map_role_to_protobuf_role info ≡ one =
                map_role-stored_role info (field (L.view w k)) λ g.
                  (find_role-fields S L role w1).holds info f g ∙ ap (λ v. field (v k) g) kept in
              Ensures-pure _ (
                ap (λ r. found ++ r ∷ []) read ∙ ap (λ b. found ++ one_if b one) (sym t ∙ decided),
                fun_ext (λ j.
                      ((find_role-Keeps S L j (L.view w1 j) role).at w1 (record { at = refl })).at)
                    ∙ kept,
              ))
        | inr t ↦ rw t (
            Ensures-pure _
              (sym (append-nil found) ∙ ap (λ b. found ++ one_if b one) (sym t ∙ decided), kept))
      ]

  list_from :
      (user : Str) (ns : List Str) (found : List Role) (w : S.World)
      → Ensures
          (fold_each (add_if_member S user) ns found)
          w
          (λ r _. r ≡ found ++ listed_roles S (L.view w) user ns)
  unfolding fold_each
  list_from user [] found w = Ensures-pure found (sym (append-nil found))
  list_from user (n ∷ ns) found w = >>=-Ensures _ _ λ found' e. record {
    holds = λ r f.
        let (one, kept) = (add_if_member-Ensures user n found w).holds found' e in
        (list_from user ns found' _).holds r f
        ∙ ap₂ (λ l v. l ++ listed_roles S v user ns) one kept
        ∙ append_assoc found (listed_one S (L.view w) user n) (listed_roles S (L.view w) user ns);
  }

  list_user_roles-Ensures :
      (user : Str) (w : S.World) (names : List Str)
      → (role_names S w).0 ≡ ok names
      → Ensures (list_user_roles S user) w (λ rs _. rs ≡ listed_roles S (L.view w) user names)
  unfolding list_user_roles
  list_user_roles-Ensures user w names h = >>=-Ensures _ _ λ ns e. record {
    holds = λ rs f.
        let same : ns ≡ names = cc in
        let kept : L.view (role_names S w).1 ≡ L.view w =
          fun_ext λ j. ((role_names-Keeps S L j (L.view w j)).at w (record { at = refl })).at in
        (list_from user ns [] _).holds rs f ∙ ap₂ (λ l v. listed_roles S v user l) same kept;
  }

  -- A ListUserRoles that succeeds replies with exactly the roles whose filters, as the store holds
  -- them, let the user in: in the order in which getRoles lists their names, each with its stored
  -- fields.
  pub list_user_roles-lists :
      (user : Str) (w : S.World) (names : List Str) (rs : List Role)
      → (role_names S w).0 ≡ ok names
      → (list_user_roles S user w).0 ≡ ok rs
      → rs ≡ listed_roles S (L.view w) user names
  list_user_roles-lists user w names rs h k = (list_user_roles-Ensures user w names h).holds rs k
