-- ===== src/Handler/Sync/Roles/Edits.antt =====
-- The loop of syncRoles over the roles that Discord has already.
use role_srv.Base.{
  ◌≡◌, ◌≢◌, ◌∙◌, refl, sym, ap, fun_ext, subst, arith, Bool, true, false, ◌&&◌, List, [], ◌∷◌, Str,
  str, ◌=?◌, =?-eq, =?_iff, contains, or_empty, at, Option, some, none, Dict, lookup, for_each,
  WhenOk, Ensures, >>=-Ensures, Ensures-pure, when-ok, if◌then◌else◌, Bool-cases, inl, inr,
}
use role_srv.Strconv.{parse_int, parse_bool}
use role_srv.Gateway.{EditRoleRequest}
use role_srv.Services.{Services}
use role_srv.Handler.Sync.Report.Success.{reporting-last}
use role_srv.Handler.Sync.Roles.{or_nil, edit_request, edit_role}
use role_srv.Handler.Sync.Roles.Effect.{is_on}

-- EditRole gives the role of the request's name the attributes of the request, and leaves the other
-- roles alone.
pub record EditLaws (S : Services) : Type 0 where
  pub attributes : S.World → Str → EditRoleRequest
  pub edit_role_ok :
      (q : EditRoleRequest) (w : S.World)
      → WhenOk (S.gateway.edit_role q w).0 (λ _. attributes (S.gateway.edit_role q w).1 q.name) q
  pub edit_role_other :
      (q : EditRoleRequest) (w : S.World) (x : Str)
      → x ≢ q.name
      → attributes (S.gateway.edit_role q w).1 x ≡ attributes w x

-- The attributes that a hash with such fields stands for.
abbrev pub stored_request : (Str → Option Str) → EditRoleRequest
stored_request p =
    let read = λ (f : Str). or_empty (p f) in
    record {
      name = read (str "Name");
      color = parse_int (read (str "Color")) 64;
      perm = parse_int (read (str "Permissions")) 64;
      position = parse_int (read (str "Position")) 64;
      hoist = parse_bool (read (str "Hoist"));
      mention = parse_bool (read (str "Mentionable"));
      managed = parse_bool (read (str "Managed"));
    }

pub edit_request-stored_request :
    (d : Dict Str) (p : Str → Option Str)
    → ((f : Str) → lookup f d ≡ p f)
    → edit_request d ≡ stored_request p
unfolding edit_request at
edit_request-stored_request d p h = ap stored_request (fun_ext h)

-- A role with that Sync and that Name is one that is wanted under the name `x`.
abbrev pub is_wanted : Str → Str → Str → Bool
is_wanted sync name x = is_on sync && name =? x

pub chosen :
    (b : Bool) (c : Dict Str) (stored : EditRoleRequest) (old : Option (Dict Str))
    → edit_request c ≡ stored
    → edit_request (or_nil (if b then some c else old))
      ≡ (if b then stored else edit_request (or_nil old))
chosen true c stored old h = h
chosen false c stored old h = refl

-- What no role at all would be edited to.
abbrev pub blank : EditRoleRequest
blank = stored_request (λ f. none)

pub nothing_sent : (y : Str) → edit_request (or_nil (lookup y [])) ≡ blank
unfolding lookup
nothing_sent y = edit_request-stored_request [] (λ f. none) (λ f. refl)

pub picked : {A : Type 0} (b : Bool) (u v : A) → b ≡ true → (if b then u else v) ≡ u
picked true u v h = refl
picked false u v h = cc

if_same : {A : Type 0} (b : Bool) (u v : A) → v ≡ u → (if b then u else v) ≡ u
if_same true u v h = refl
if_same false u v h = h

module _ (S : Services) (E : EditLaws S) where
  -- What is sent for a role.
  abbrev pub sent : Dict (Dict Str) → Str → EditRoleRequest
  sent infos y = edit_request (or_nil (lookup y infos))

  edit_role_self :
      (channel : Str) (infos : Dict (Dict Str)) (y : Str) (w : S.World)
      → (sent infos y).name ≡ y
      → Ensures (edit_role S channel infos y) w (λ _ w'. E.attributes w' y ≡ sent infos y)
  unfolding edit_role
  edit_role_self channel infos y w n = reporting-last S channel _ _ w λ _ e.
      ap (E.attributes (S.gateway.edit_role (sent infos y) w).1) (sym n)
      ∙ when-ok _ _ _ (E.edit_role_ok (sent infos y) w) e

  edit_role_other :
      (channel : Str) (infos : Dict (Dict Str)) (y x : Str) (w : S.World)
      → (sent infos y).name ≡ y
      → x ≢ y
      → Ensures (edit_role S channel infos y) w (λ _ w'. E.attributes w' x ≡ E.attributes w x)
  unfolding edit_role
  edit_role_other channel infos y x w n ne =
      reporting-last S channel _ _ w λ _ e. E.edit_role_other (sent infos y) w x (λ q. ne (q ∙ n))

  -- A role that is named once was edited last, or keeps what it has.
  pub edits :
      (channel : Str) (infos : Dict (Dict Str)) (ys : List Str) (x : Str) (w : S.World)
      → ((y : Str) → contains ys y ≡ true → (sent infos y).name ≡ y)
      → Ensures
          (for_each (edit_role S channel infos) ys)
          w
          (λ _ w'. E.attributes w' x ≡ (if contains ys x then sent infos x else E.attributes w x))
  unfolding for_each contains
  edits channel infos [] x w h = Ensures-pure _ refl
  edits channel infos (y ∷ ys) x w h = >>=-Ensures _ _ λ a e. >>=-Ensures _ _ λ b f.
      Ensures-pure _ (
        let named : (sent infos y).name ≡ y = h y (ground (arith, =?_iff y y)) in
        let rest = (edits channel infos ys x _ (λ z k. h z (ground arith))).holds b f in
        elim (Bool-cases (y =? x)) [
          | inl q ↦ rw q (
              rest
              ∙ if_same (contains ys x) _ _ (
                  subst (λ z. E.attributes (edit_role S channel infos y w).1 z ≡ sent infos z)
                    (=?-eq y x q) ((edit_role_self channel infos y w named).holds a e)))
          | inr q ↦ rw q (
              rest
              ∙ ap (λ v. if contains ys x then sent infos x else v)
                  ((edit_role_other channel infos y x w named
                      (λ p. ground (arith, =?_iff y x))).holds
                    a e))
        ])
