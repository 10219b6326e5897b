-- ===== src/Client/Recolored.antt =====
-- Set of client/roles.go with a hexadecimal Color, over the handlers.
use role_srv.Base.{
  ℕ, ◌<◌, ◌^◌, ◌≡◌, ◌∙◌, refl, ap, arith, true, false, not, ◌&&◌, List, ◌∷◌, map, Str, str, ◌=?◌,
  Exec, ok, pure, some, or_empty, at, contains, Ensures, >>=-Ensures, Ensures-pure, Keeps-pure, pos,
  if◌then◌else◌, ok-bind, =?-refl, is_empty,
}
use role_srv.Strconv.{format_int, parse_int}
use role_srv.Strconv.Hex.{AreDigits, digit_char, number, parse_int16-digits}
use role_srv.Strconv.RoundTrip.{parse_int-format_int}
use role_srv.Proto.{Role, zero_role, UpdateInfo, SyncRequest}
use role_srv.Redis.{RedisLaws, field}
use role_srv.Redis.Frames.{Holds}
use role_srv.StringSets.{StringSetLaws}
use role_srv.Services.{Services}
use role_srv.Handler.Keys.{role_key}
use role_srv.Handler.Roles.{get_role, update_role, map_role_to_protobuf_role}
use role_srv.Handler.Roles.Find.{find_role-fields}
use role_srv.Handler.Roles.Update.{WriteReplies, update_role-sets}
use role_srv.Client.Services.{RolesService, ClientServices}
use role_srv.Client.Services.Keeping.{or_fatal_ok, or_fatal-Keeps, sync_after-Keeps}
use role_srv.Client.Roles.{
  set, set_known, set_converted, set_reply, set_value, color_value, settable_keys,
}
use role_srv.Client.Denied.{settable}
use role_srv.Client.Guarded.{Front, client}
use role_srv.Stub.{Transport, service_name, new_roles_service, register_roles_handler}
use role_srv.Stub.Served.{roles_handler, Delivers, new_roles_service-roles_handler}

color_is_settable : (not (is_empty (str "Color")) && contains settable_keys (str "Color")) ≡ true
unfolding str contains ◌=?◌
color_is_settable = refl

-- `#` and the digits.
abbrev pub hex_color : ℕ → List ℕ → Str
hex_color d ds = b'#' ∷ map digit_char (d ∷ ds)

-- The request of the command for a color.
abbrev pub recolor : Str → ℕ → UpdateInfo
recolor name n = record { name = name; key = str "Color"; value = format_int (pos n) }

-- The value of Color that is sent for a number below 2 ^ 63.
set_value-hex_color :
    {W : Type 0} (d : ℕ) (ds : List ℕ) (w : W)
    → AreDigits (d ∷ ds)
    → number 0 (d ∷ ds) < 2 ^ 63
    → set_value (str "Color") (hex_color d ds) w ≡ (ok (format_int (pos (number 0 (d ∷ ds)))), w)
unfolding set_value color_value str ◌=?◌ pure
set_value-hex_color d ds w h small = rw (parse_int16-digits d ds h small)

module _ (S : Services) (L : RedisLaws S.redis) where
  get_role-color :
      (name : Str) (w : S.World)
      → Ensures (get_role S (record zero_role { short_name = name })) w (λ got _.
        got.color ≡ parse_int (or_empty (field (L.view w (role_key S name)) (str "Color"))) 32)
  unfolding get_role map_role_to_protobuf_role at
  get_role-color name w = >>=-Ensures _ _ λ d found. Ensures-pure _ (
      ap (λ o. parse_int (or_empty o) 32)
        ((find_role-fields S L name w).holds d found (str "Color")))

  module _ (F : Front S.World) (send : SyncRequest → Exec S.World (Unit {0})) where
    abbrev C : ClientServices
    C = client S F (roles_handler S send)

    set-hex_color :
        (sender name : Str) (d : ℕ) (ds : List ℕ) (w : S.World)
        → StringSetLaws F.sets
        → AreDigits (d ∷ ds)
        → number 0 (d ∷ ds) < 2 ^ 63
        → set C sender name (str "Color") (hex_color d ds) w
          ≡ set_converted C sender name (str "Color") (format_int (pos (number 0 (d ∷ ds)))) w
    unfolding set set_known
    set-hex_color sender name d ds w T h small =
        let value = set_value-hex_color d ds w h small in
        let known : F.sets.has (F.sets.from_slice settable_keys F.sets.new) (str "Color") ≡ true =
          settable C T (str "Color") ∙ color_is_settable in
        rw known (
          ok-bind (set_value (str "Color") (hex_color d ds)) _ w _ (ap (λ r. r.0) value)
          ∙ ap
              (λ r.
                set_converted C sender name (str "Color") (format_int (pos (number 0 (d ∷ ds))))
                  r.1)
              value)

    set_converted-stores :
        (sender name key v : Str) (w : S.World)
        → ((r : SyncRequest) (x : S.World)
            → L.view (send r x).1 (role_key S name) ≡ L.view x (role_key S name))
        → (update_role S (record { name = name; key = key; value = v }) w).0 ≡ ok tt
        → L.view (set_converted C sender name key v w).1 (role_key S name)
          ≡ L.view
              (update_role S (record { name = name; key = key; value = v }) w).1
              (role_key S name)
    unfolding set_converted roles_handler
    set_converted-stores sender name key v w apart done =
        let u : UpdateInfo = record { name = name; key = key; value = v } in
        let H =
          Holds S.redis L (role_key S name) (L.view (update_role S u w).1 (role_key S name)) in
        let rest =
          or_fatal-Keeps C H _ (λ _. pure (set_reply C name key v))
            (sync_after-Keeps C H (λ r. record { at = λ x h. record { at = apart r x ∙ h.at } })
              sender false)
            (λ _. Keeps-pure _) in
        ap (λ r. L.view r.1 (role_key S name)) (or_fatal_ok C (update_role S u) _ w tt done)
        ∙ (rest.at _ (record { at = refl })).at

  -- Through a client that is connected by its stub, a Set of Color to `#` and the hexadecimal digits
  -- (a to f in lower case) of a number below 2 ^ 31, whose UpdateRole is accepted and written, is read back by GetRole as
  -- that number. The send to the channel is taken to leave the role alone.
  pub get_role-set :
      (F : Front S.World) (send : SyncRequest → Exec S.World (Unit {0})) (T : Transport S.World)
      (service sender name : Str) (d : ℕ) (ds : List ℕ) (w : S.World) (r : Role)
      → Delivers T (service_name service) (register_roles_handler (roles_handler S send))
      → StringSetLaws F.sets
      → AreDigits (d ∷ ds)
      → number 0 (d ∷ ds) < 2 ^ 31
      → ((q : SyncRequest) (x : S.World)
          → L.view (send q x).1 (role_key S name) ≡ L.view x (role_key S name))
      → WriteReplies S L (recolor name (number 0 (d ∷ ds))) w
      → (update_role S (recolor name (number 0 (d ∷ ds))) w).0 ≡ ok tt
      → (get_role S
          (record zero_role { short_name = name })
          (set
            (client S F (new_roles_service T service))
            sender
            name
            (str "Color")
            (hex_color d ds)
            w).1).0
        ≡ ok r
      → r.color ≡ pos (number 0 (d ∷ ds))
  get_role-set F send T service sender name d ds w r del sets h small apart replied done got =
      let n = number 0 (d ∷ ds) in
      let k = role_key S name in
      let run = λ (q : RolesService S.World).
        set (client S F q) sender name (str "Color") (hex_color d ds) w in
      let stub = new_roles_service-roles_handler S send T service del in
      let same : L.view (run (new_roles_service T service)).1 k
          ≡ L.view (update_role S (recolor name n) w).1 k =
        ap (λ q. L.view (run q).1 k) stub
        ∙ ap (λ x. L.view x.1 k) (set-hex_color F send sender name d ds w sets h (omega arith))
        ∙ set_converted-stores F send sender name (str "Color") (format_int (pos n)) w apart done in
      (get_role-color name _).holds r got
      ∙ ap (λ e. parse_int (or_empty (field e (str "Color"))) 32) same
      ∙ ap (λ o. parse_int (or_empty o) 32)
          ((update_role-sets S L (recolor name n) w replied done).written (str "Color")
            ∙ ap (λ b. if b then some (format_int (pos n)) else field (L.view w k) (str "Color"))
                (=?-refl (str "Color")))
      ∙ parse_int-format_int 32 (pos n) (omega arith) small
