-- ===== src/Client/Roles.antt =====
-- The commands of client/roles.go.
use role_srv.Base.{
  Bool, true, false, not, ◌&&◌, List, [], ◌∷◌, ◌++◌, Str, str, ◌=?◌, is_empty, Dict, insert, keys,
  at, Exec, pure, crash, ◌>>=◌, if◌then◌else◌,
}
use role_srv.Strconv.{format_int, format_bool, parse_int16}
use role_srv.Proto.{Role, zero_role}
use role_srv.Client.Services.{ClientServices, or_fatal, permitted, sync_after}
use role_srv.Client.Names.{newline, tab, tabbed, quoted, trim_quotes, map_name}

-- clientType
abbrev pub client_type : Bool → Str
client_type true = str "SIG"
client_type false = str "Role"

-- The test of ListRoles.
unfoldable pub is_listed : Bool → Bool → Role → Bool
is_listed all sig r =
    (if sig then r.sig else not r.sig) && not (r.sig && (not r.joinable && not all))

-- The loop that fills `roleList`.
unfoldable pub role_list : Bool → Bool → List Role → Dict Str → Dict Str
role_list all sig [] d = d
role_list all sig (r ∷ rs) d =
    role_list all sig rs (if is_listed all sig r then insert r.short_name r.name d else d)

abbrev list_line : Bool → Str → Str → Str
list_line true short name = tab ++ (short ++ (str ": " ++ (name ++ newline)))
list_line false short name = tabbed short

unfoldable pub list_lines : Bool → Dict Str → List Str → Str
list_lines sig d [] = []
list_lines sig d (k ∷ ks) = list_line sig k (at k d) ++ list_lines sig d ks

abbrev pub is_nil {ℓ} : {A : Type ℓ} → List A → Bool
is_nil [] = true
is_nil (x ∷ xs) = false

-- "%s: %s\n"
abbrev info_line : Str → Str → Str
info_line label value = label ++ (str ": " ++ (value ++ newline))

unfoldable pub info_text : Bool → Role → Str
info_text sig r =
    info_line (str "ShortName") r.short_name
    ++ (info_line (str "Type") r.type
        ++ (info_line (str "FilterA") r.filter_a
            ++ (info_line (str "FilterB") r.filter_b
                ++ (info_line (str "Name") r.name
                    ++ (info_line (str "Color") (format_int r.color)
                        ++ (info_line (str "Hoist") (format_bool r.hoist)
                            ++ (info_line (str "Position") (format_int r.position)
                                ++ (info_line (str "Permissions") (format_int r.permissions)
                                    ++ (info_line (str "Manged") (format_bool r.managed)
                                        ++ (info_line (str "Mentionable")
                                              (format_bool r.mentionable)
                                            ++ ((if sig
                                                  then info_line (str "Joinable")
                                                      (format_bool r.joinable)
                                                  else [])
                                                ++ info_line (str "Sync")
                                                    (format_bool r.sync))))))))))))

abbrev pub settable_keys : List Str
settable_keys =
    str "Color"
    ∷ str "Hoist"
    ∷ str "Position"
    ∷ str "Permissions"
    ∷ str "Managed"
    ∷ str "Mentionable"
    ∷ str "Sync"
    ∷ []

-- The value of Color: behind `#` it is read as hexadecimal. The first byte of an empty value is out
-- of range.
unfoldable pub color_value : {W : Type 0} → Str → Exec W Str
color_value [] = crash
color_value (c ∷ s) = pure (if (c ∷ []) =? str "#" then format_int (parse_int16 s) else c ∷ s)

unfoldable pub set_value : {W : Type 0} → Str → Str → Exec W Str
set_value key value = if key =? str "Color" then color_value value else pure value

unfoldable pub sig_lines : Bool → List Role → Str
sig_lines sig [] = []
sig_lines sig (r ∷ rs) =
    (if (if sig then r.sig else not r.sig) then tabbed r.short_name else []) ++ sig_lines sig rs

abbrev option_lines : List Str → Str
option_lines [] = []
option_lines (k ∷ ks) = tabbed k ++ option_lines ks

module _ (C : ClientServices) where
  open C use {World, roles, order, sets, send_success, send_error, send_fatal}

  -- The reply of ListRoles with the roles of `roleList`.
  unfoldable pub list_text : Bool → Dict Str → Str
  list_text sig d =
      if is_nil d
      then send_error (str "No " ++ (client_type sig ++ (str "s" ++ newline)))
      else quoted (client_type sig ++ (str "s:" ++ (newline ++ list_lines sig d (order (keys d)))))

  unfoldable pub list_roles : Bool → Bool → Exec World Str
  list_roles all sig =
      or_fatal C roles.get_roles (λ rs. pure (list_text sig (role_list all sig rs [])))

  unfoldable pub add_role : Str → Str → Str → Str → Str → Bool → Str → Bool → Exec World Str
  add_role sender short type a b joinable name sig = permitted C sender (
      or_fatal C
        (roles.add_role (record zero_role {
          sig = sig;
          short_name = short;
          type = type;
          name = trim_quotes name;
          filter_a = a;
          filter_b = b;
          joinable = joinable;
        }))
        (λ _.
          or_fatal C (sync_after C sender false)
            (λ _. pure (send_success (str "Added: " ++ (short ++ newline))))))

  -- The steps of RemoveRole once the role is known to be of the right kind.
  unfoldable pub remove_found : Str → Str → Exec World Str
  remove_found sender short =
      or_fatal C (roles.remove_role (record zero_role { short_name = short })) (λ _.
        or_fatal C (sync_after C sender false)
          (λ _. pure (send_success (str "Removed: " ++ (short ++ newline)))))

  unfoldable pub remove_role : Str → Str → Bool → Exec World Str
  remove_role sender short sig = permitted C sender (
      or_fatal C (roles.get_role (record zero_role { short_name = short })) (λ r.
        let remove = remove_found sender short in
        if (if sig then r.sig else not r.sig)
        then remove
        else pure (send_error (str "'" ++ (short ++ str "' doesn't exist")))))

  unfoldable pub role_info : Str → Str → Bool → Exec World Str
  role_info sender short sig = permitted C sender (
      or_fatal C (roles.get_role (record zero_role { short_name = short }))
        (λ r. pure (quoted (info_text sig r))))

  unfoldable pub sync_roles : Str → Exec World Str
  sync_roles sender = or_fatal C (sync_after C sender true) (λ _. pure [])

  unfoldable pub unknown_key : Str → Str
  unknown_key key = send_error (
      str "Unknown key: "
      ++ (key
          ++ (newline
              ++ (str "Valid Options are:"
                  ++ (newline
                      ++ option_lines (sets.range (sets.from_slice settable_keys sets.new)))))))

  abbrev pub set_reply : Str → Str → Str → Str
  set_reply name key v =
      send_success
        (str "Set '" ++ (key ++ (str "' to '" ++ (v ++ (str "' for '" ++ (name ++ str "'"))))))

  -- The steps of Set behind the conversion of the value.
  unfoldable pub set_converted : Str → Str → Str → Str → Exec World Str
  set_converted sender name key v =
      or_fatal C (roles.update_role (record { name = name; key = key; value = v }))
        (λ _. or_fatal C (sync_after C sender false) (λ _. pure (set_reply name key v)))

  unfoldable pub set_known : Str → Str → Str → Str → Exec World Str
  set_known sender name key value = do v ← set_value key value; set_converted sender name key v

  unfoldable pub set : Str → Str → Str → Str → Exec World Str
  set sender name key value =
      let change = set_known sender name key value in
      if sets.has (sets.from_slice settable_keys sets.new) key
      then change
      else pure (unknown_key key)

  -- The reply with the names of a role's or filter's members.
  abbrev pub member_text : Str → Str → Str
  member_text name buffer =
      if is_empty buffer
      then str "```Empty list```" ++ newline
      else str "```"
        ++ (name ++ (str " Members:" ++ (newline ++ (buffer ++ (str "```" ++ newline)))))

  unfoldable pub get_members : Str → Exec World Str
  get_members role =
      or_fatal C (roles.get_role_membership role)
        (λ ms. do (mapped, e) ← map_name C ms; pure (member_text role mapped.buffer))

  unfoldable pub list_user_roles : Str → Bool → Exec World Str
  list_user_roles user sig = or_fatal C (roles.list_user_roles user) (λ rs. do
    (mapped, e) ← map_name C (user ∷ [])
    pure (
        str "```Member of for:" ++ (mapped.buffer ++ (sig_lines sig rs ++ (str "```" ++ newline)))))
