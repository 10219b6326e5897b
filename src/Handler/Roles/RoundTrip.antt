-- ===== src/Handler/Roles/RoundTrip.antt =====
-- GetRole after AddRole.
use role_srv.Base.{
  Str, str, ◌≡◌, arith, refl, ap, ◌∙◌, Bool, true, false, ok, lookup, at, or_empty, some, ℤ, Dict,
  Ensures, >>=-Ensures, Ensures-pure, ◌=?◌,
}
use role_srv.Strconv.{parse_int, parse_bool, format_int}
use role_srv.Strconv.RoundTrip.{IsInt, parse_int-format_int}
use role_srv.Proto.{Role}
use role_srv.Redis.{RedisLaws, field}
use role_srv.Services.{Services}
use role_srv.Handler.Keys.{role_key}
use role_srv.Handler.Roles.{add_role, get_role, map_role_to_protobuf_role}
use role_srv.Handler.Roles.Find.{find_role-fields}
use role_srv.Handler.Roles.Add.{add_role-creates}

abbrev pub bit : Bool → Str
bit true = str "1"
bit false = str "0"

-- What `structs.Map` and the encoding of HMSET make of a role: a field for each field, text as it is,
-- a flag as 1 or 0 and a number in decimal.
pub record IsRoleMap (m : Role → Dict Str) : Type 0 where
  pub type : (r : Role) → lookup (str "Type") (m r) ≡ some r.type
  pub short_name : (r : Role) → lookup (str "ShortName") (m r) ≡ some r.short_name
  pub filter_a : (r : Role) → lookup (str "FilterA") (m r) ≡ some r.filter_a
  pub filter_b : (r : Role) → lookup (str "FilterB") (m r) ≡ some r.filter_b
  pub sig : (r : Role) → lookup (str "Sig") (m r) ≡ some (bit r.sig)
  pub joinable : (r : Role) → lookup (str "Joinable") (m r) ≡ some (bit r.joinable)
  pub sync : (r : Role) → lookup (str "Sync") (m r) ≡ some (bit r.sync)
  pub name : (r : Role) → lookup (str "Name") (m r) ≡ some r.name
  pub color : (r : Role) → lookup (str "Color") (m r) ≡ some (format_int r.color)
  pub hoist : (r : Role) → lookup (str "Hoist") (m r) ≡ some (bit r.hoist)
  pub position : (r : Role) → lookup (str "Position") (m r) ≡ some (format_int r.position)
  pub permissions : (r : Role) → lookup (str "Permissions") (m r) ≡ some (format_int r.permissions)
  pub managed : (r : Role) → lookup (str "Managed") (m r) ≡ some (bit r.managed)
  pub mentionable : (r : Role) → lookup (str "Mentionable") (m r) ≡ some (bit r.mentionable)

-- The numbers of the role are of type int32.
pub record FitsInt32 (r : Role) : Type 0 where
  pub color : IsInt 32 r.color
  pub position : IsInt 32 r.position
  pub permissions : IsInt 32 r.permissions

parse_bool-bit : (b : Bool) → parse_bool (bit b) ≡ b
unfolding parse_bool ◌=?◌
parse_bool-bit true = refl
parse_bool-bit false = refl

module _ (d : Dict Str) (f : Str) where
  read_text : (v : Str) → lookup f d ≡ some v → at f d ≡ v
  unfolding at
  read_text v e = ap or_empty e

  read_bool : (b : Bool) → lookup f d ≡ some (bit b) → parse_bool (at f d) ≡ b
  read_bool b e = ap parse_bool (read_text (bit b) e) ∙ parse_bool-bit b

  read_int : (i : ℤ) → IsInt 32 i → lookup f d ≡ some (format_int i) → parse_int (at f d) 32 ≡ i
  read_int i fits e =
      ap (λ s. parse_int s 32) (read_text (format_int i) e)
      ∙ parse_int-format_int 32 i (omega arith) fits

module _ (S : Services) (L : RedisLaws S.redis) (M : IsRoleMap S.structs_map) where
  -- A hash with the fields of a role is read as that role.
  map_role_lem :
      (r : Role) (d : Dict Str)
      → FitsInt32 r
      → ((f : Str) → lookup f d ≡ lookup f (S.structs_map r))
      → map_role_to_protobuf_role d ≡ r
  unfolding map_role_to_protobuf_role
  map_role_lem r d fits same = λ i. record {
    type = read_text d _ _ (same _ ∙ M.type r) i;
    short_name = read_text d _ _ (same _ ∙ M.short_name r) i;
    filter_a = read_text d _ _ (same _ ∙ M.filter_a r) i;
    filter_b = read_text d _ _ (same _ ∙ M.filter_b r) i;
    sig = read_bool d _ _ (same _ ∙ M.sig r) i;
    joinable = read_bool d _ _ (same _ ∙ M.joinable r) i;
    sync = read_bool d _ _ (same _ ∙ M.sync r) i;
    name = read_text d _ _ (same _ ∙ M.name r) i;
    color = read_int d _ _ fits.color (same _ ∙ M.color r) i;
    hoist = read_bool d _ _ (same _ ∙ M.hoist r) i;
    position = read_int d _ _ fits.position (same _ ∙ M.position r) i;
    permissions = read_int d _ _ fits.permissions (same _ ∙ M.permissions r) i;
    managed = read_bool d _ _ (same _ ∙ M.managed r) i;
    mentionable = read_bool d _ _ (same _ ∙ M.mentionable r) i;
  }

  get_role-Ensures :
      (r : Role) (w : S.World)
      → FitsInt32 r
      → ((f : Str) → field (L.view w (role_key S r.short_name)) f ≡ lookup f (S.structs_map r))
      → Ensures (get_role S r) w (λ got _. got ≡ r)
  unfolding get_role
  get_role-Ensures r w fits stored = >>=-Ensures _ _ λ d found.
      Ensures-pure _ (
        map_role_lem r d fits λ f. (find_role-fields S L r.short_name w).holds d found f ∙ stored f)

  -- GetRole after a successful AddRole of the same role, if Redis answers, replies with the role as
  -- it was added, in all fourteen fields.
  pub get_role-add_role :
      (r got : Role) (w : S.World)
      → FitsInt32 r
      → (add_role S r w).0 ≡ ok tt
      → (get_role S r (add_role S r w).1).0 ≡ ok got
      → got ≡ r
  get_role-add_role r got w fits added found =
      (get_role-Ensures r _ fits (add_role-creates S L r w added).stored).holds got found
