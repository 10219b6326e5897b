-- ===== src/Client/Listed.antt =====
-- ListRoles of client/roles.go over the handlers: which roles the reply shows.
use role_srv.Base.{
  ◌≡◌, ◌∙◌, refl, sym, ap, subst, arith, Bool, true, false, not, ◌&&◌, ◌||◌, List, [], ◌∷◌, Str,
  str, ◌=?◌, =?-eq, =?-refl, Option, none, some, or_empty, Dict, lookup, insert, lookup-insert,
  contains, contains-keys, is_some, keys, ◌++◌, at, Exec, ok, pure, if◌then◌else◌, Bool-cases, inl,
  inr,
}
use role_srv.Proto.{Role, SyncRequest}
use role_srv.Redis.{RedisLaws, Entry, field}
use role_srv.Services.{Services}
use role_srv.Handler.Keys.{role_key}
use role_srv.Handler.Roles.{role_names, get_roles}
use role_srv.Handler.Roles.Summary.{is_on, summary, summaries, get_roles-lists}
use role_srv.Client.Services.{ClientServices}
use role_srv.Client.Services.Keeping.{or_fatal_ok}
use role_srv.Client.Roles.{is_listed, role_list, list_lines, list_text, list_roles}
use role_srv.Client.Guarded.{Front, client}
use role_srv.Stub.{Transport, service_name, new_roles_service, register_roles_handler}
use role_srv.Stub.Served.{roles_handler, Delivers, new_roles_service-roles_handler}

-- What ListRoles is to show: of the SIGs those that are joinable, or all of them, or else the roles
-- that are no SIGs. A flag is on unless `0` is stored.
abbrev pub is_shown : Bool → Bool → Entry → Bool
is_shown all true e = is_on (field e (str "Sig")) && (all || is_on (field e (str "Joinable")))
is_shown all false e = not (is_on (field e (str "Sig")))

is_listed-summary :
    (all sig : Bool) (e : Entry) (n : Str)
    → is_listed all sig (summary (field e) n) ≡ is_shown all sig e
unfolding is_listed
is_listed-summary all true e n = ground arith
is_listed-summary all false e n = ground arith

module _ (S : Services) (v : Str → Entry) (all sig : Bool) where
  -- The name that is shown for a short name, behind those of `before`.
  abbrev pub shown : Str → List Str → Option Str → Option Str
  shown k names before =
      if contains names k && is_shown all sig (v (role_key S k))
      then some (or_empty (field (v (role_key S k)) (str "Name")))
      else before

  -- One round of the loop of ListRoles.
  lookup-round :
      (k n : Str) (d : Dict Str)
      → lookup k (
          if is_listed all sig (summary (field (v (role_key S n))) n)
          then insert n (or_empty (field (v (role_key S n)) (str "Name"))) d
          else d)
        ≡ shown k (n ∷ []) (lookup k d)
  unfolding contains
  lookup-round k n d = elim (Bool-cases (n =? k)) [
    | inl same ↦
        let q = =?-eq n k same in
        let e = v (role_key S k) in
        subst
          (λ m.
            lookup k (
              if is_listed all sig (summary (field (v (role_key S m))) m)
              then insert m (or_empty (field (v (role_key S m)) (str "Name"))) d
              else d)
            ≡ shown k (m ∷ []) (lookup k d))
          (sym q)
          (ground (
            arith,
            is_listed-summary all sig e k,
            =?-refl k,
            lookup-insert k k (or_empty (field e (str "Name"))) d,
          ))
    | inr other ↦
        let e = v (role_key S n) in
        ground (arith, lookup-insert n k (or_empty (field e (str "Name"))) d)
  ]

  shown-cons :
      (k n : Str) (ns : List Str) (before : Option Str)
      → shown k ns (shown k (n ∷ []) before) ≡ shown k (n ∷ ns) before
  unfolding contains
  shown-cons k n ns before = ground arith

  lookup-role_list :
      (k : Str) (names : List Str) (d : Dict Str)
      → lookup k (role_list all sig (summaries S v names) d) ≡ shown k names (lookup k d)
  unfolding role_list contains
  lookup-role_list k [] d = refl
  lookup-role_list k (n ∷ ns) d =
      lookup-role_list k ns _
      ∙ ap (shown k ns) (lookup-round k n d)
      ∙ shown-cons k n ns (lookup k d)

-- The line of a short name. Only that of a SIG shows the name.
abbrev pub shown_line : Bool → Str → Option Str → Str
shown_line true k name = str "\t" ++ (k ++ (str ": " ++ (or_empty name ++ str "\n")))
shown_line false k name = str "\t" ++ (k ++ str "\n")

unfoldable pub shown_lines : Bool → (Str → Option Str) → List Str → Str
shown_lines sig table [] = []
shown_lines sig table (k ∷ ks) = shown_line sig k (table k) ++ shown_lines sig table ks

-- The reply for a table that has these short names.
unfoldable pub table_reply : ClientServices → Bool → (Str → Option Str) → List Str → Str
table_reply C true table [] = C.send_error (str "No SIGs\n")
table_reply C false table [] = C.send_error (str "No Roles\n")
table_reply C true table (k ∷ ks) =
    str "```SIGs:\n" ++ (shown_lines true table (C.order (k ∷ ks)) ++ str "```")
table_reply C false table (k ∷ ks) =
    str "```Roles:\n" ++ (shown_lines false table (C.order (k ∷ ks)) ++ str "```")

module _ (table : Str → Option Str) (d : Dict Str) where
  list_lines-shown_lines :
      (sig : Bool) (ks : List Str)
      → ((k : Str) → lookup k d ≡ table k)
      → list_lines sig d ks ≡ shown_lines sig table ks
  unfolding list_lines shown_lines at str
  list_lines-shown_lines sig [] h = refl
  list_lines-shown_lines true (k ∷ ks) h = rw (h k, list_lines-shown_lines true ks h)
  list_lines-shown_lines false (k ∷ ks) h = rw (list_lines-shown_lines false ks h)

list_text-table_reply :
    (C : ClientServices) (table : Str → Option Str) (sig : Bool) (d : Dict Str)
    → ((k : Str) → lookup k d ≡ table k)
    → list_text C sig d ≡ table_reply C sig table (keys d)
unfolding list_text table_reply keys str
list_text-table_reply C table true [] h = refl
list_text-table_reply C table false [] h = refl
list_text-table_reply C table true ((k, v) ∷ d) h =
    rw (list_lines-shown_lines table ((k, v) ∷ d) true _ h)
list_text-table_reply C table false ((k, v) ∷ d) h =
    rw (list_lines-shown_lines table ((k, v) ∷ d) false _ h)

module _ (S : Services) (L : RedisLaws S.redis) where
  -- The reply of ListRoles shows a table: a line for each short name that the table has, in the order
  -- in which Go loops over a map of them.
  abbrev pub Shows :
      ClientServices → Bool → (Str → Option Str) → Exec S.World Str → S.World → Type 0
  Shows C sig table m w =
      (ks : List Str) × ((m w).0 ≡ ok (table_reply C sig table ks))
      × ((k : Str) → contains ks k ≡ is_some (table k))

  list_roles-Shows_store :
      (F : Front S.World) (send : SyncRequest → Exec S.World (Unit {0})) (all sig : Bool)
      (w : S.World) (names : List Str) (rs : List Role)
      → (role_names S w).0 ≡ ok names
      → (get_roles S w).0 ≡ ok rs
      → let C = client S F (roles_handler S send) in
        Shows C sig (λ k. shown S (L.view w) all sig k names none) (list_roles C all sig) w
  unfolding list_roles roles_handler pure lookup
  list_roles-Shows_store F send all sig w names rs listed got =
      let C = client S F (roles_handler S send) in
      let e = get_roles-lists S L w names rs listed got in
      let d = role_list all sig rs [] in
      let table = λ (k : Str). shown S (L.view w) all sig k names none in
      let holds = λ (k : Str).
        ap (λ l. lookup k (role_list all sig l [])) e
        ∙ lookup-role_list S (L.view w) all sig k names [] in
      (
        keys d,
        ap (λ r. r.0) (or_fatal_ok C (get_roles S) _ w rs got)
            ∙ ap ok (list_text-table_reply C table sig d holds),
        λ k. contains-keys d k ∙ ap is_some (holds k),
      )

  -- If getRoles and GetRoles are answered, then ListRoles of a client that is connected by its stub
  -- replies with a line for each role that getRoles lists and that is to be shown, in the order in
  -- which Go loops over the map of them, and with no other line, or with the error that there is
  -- none. Of the SIGs those are to be shown that are joinable, or all of them where all are asked
  -- for, or else the roles that are no SIGs. The line has the short name, and for a SIG its Name in
  -- the store.
  pub list_roles-Shows :
      (F : Front S.World) (send : SyncRequest → Exec S.World (Unit {0})) (T : Transport S.World)
      (name : Str) (all sig : Bool) (w : S.World) (names : List Str) (rs : List Role)
      → Delivers T (service_name name) (register_roles_handler (roles_handler S send))
      → (role_names S w).0 ≡ ok names
      → (get_roles S w).0 ≡ ok rs
      → Shows
          (client S F (new_roles_service T name))
          sig
          (λ k. shown S (L.view w) all sig k names none)
          (list_roles (client S F (new_roles_service T name)) all sig)
          w
  list_roles-Shows F send T name all sig w names rs d listed got =
      subst
        (λ r.
          Shows (client S F r) sig (λ k. shown S (L.view w) all sig k names none)
            (list_roles (client S F r) all sig) w)
        (sym (new_roles_service-roles_handler S send T name d))
        (list_roles-Shows_store F send all sig w names rs listed got)
