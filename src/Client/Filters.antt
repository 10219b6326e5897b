-- ===== src/Client/Filters.antt =====
-- The commands of client/filters.go.
use role_srv.Base.{
  ℕ, ◌-◌, true, false, List, [], ◌∷◌, ◌++◌, Str, str, is_empty, Exec, pure, gets, ◌>>=◌, ◌>>◌,
  if◌then◌else◌, Option, none, some,
}
use role_srv.Proto.{Filter}
use role_srv.Client.Services.{ClientServices, or_fatal, permitted, sync_after}
use role_srv.Client.Names.{Mapped, newline, tab, quoted, trim_quotes, map_name}
use role_srv.Client.Roles.{is_nil}

unfoldable pub filter_lines : List Filter → Str
filter_lines [] = []
filter_lines (f ∷ fs) =
    (tab ++ (f.name ++ (str ": " ++ (f.description ++ newline)))) ++ filter_lines fs

module _ (C : ClientServices) where
  open C use {World, roles, now, show_duration, send_success, send_error, send_fatal}

  unfoldable pub add_filter : Str → Str → Str → Exec World Str
  add_filter sender name description = permitted C sender (
      or_fatal C (roles.add_filter (record { name = name; description = trim_quotes description }))
        (λ _. pure (send_success (str "Added: " ++ (name ++ newline)))))

  unfoldable pub list_filters : Exec World Str
  list_filters = or_fatal C roles.get_filters (λ fs. pure (
      if is_nil fs
      then send_error (str "No Filters" ++ newline)
      else quoted (str "Filters:" ++ (newline ++ filter_lines fs))))

  unfoldable pub remove_filter : Str → Str → Exec World Str
  remove_filter sender name = permitted C sender (
      or_fatal C (roles.remove_filter (record { name = name; description = [] }))
        (λ _. pure (send_success (str "Removed: " ++ (name ++ newline)))))

  -- What ListMembers replies from the results of MapName.
  abbrev pub listed : Str → ℕ → Mapped → Option Str → World → Str
  listed name t mapped (some e) w = send_fatal e
  listed name t mapped none w =
      if is_empty mapped.buffer
      then str "```Empty list```" ++ newline
      else str "```"
        ++ (name
            ++ (str " Members:"
                ++ (newline
                    ++ (mapped.buffer
                        ++ (newline
                            ++ (str "ListeMembers returned in "
                                ++ (show_duration (now w - t) ++ (str "```" ++ newline))))))))

  unfoldable pub list_members : Str → Exec World Str
  list_members name = do
    t ← gets now
    or_fatal C (roles.get_members name) (λ ms.
        let map = (do (mapped, e) ← map_name C ms; gets (listed name t mapped e)) in
        if is_nil ms then pure (send_error (str "No members in filter")) else map)

  unfoldable pub remove_all_members : Str → Str → Exec World (Unit {0})
  remove_all_members name sender = do
    ms ← roles.get_members name
    roles.remove_members (record { name = ms; filter = name })
    sync_after C sender false

  unfoldable pub add_member : Str → Str → Str → Exec World Str
  add_member sender user filter = permitted C sender (
      or_fatal C (roles.add_members (record { name = user ∷ []; filter = filter })) (λ _.
        or_fatal C (sync_after C sender false) (λ _. pure (
          send_success
            (str "Added '" ++ (user ++ (str "' to '" ++ (filter ++ (str "'" ++ newline)))))))))

  unfoldable pub remove_member : Str → Str → Str → Exec World Str
  remove_member sender user filter = permitted C sender (
      or_fatal C (roles.remove_members (record { name = user ∷ []; filter = filter })) (λ _.
        or_fatal C (sync_after C sender false) (λ _. pure (
          send_success
            (str "Removed '" ++ (user ++ (str "' from '" ++ (filter ++ (str "'" ++ newline)))))))))

  unfoldable pub sync_members : Str → Exec World Str
  sync_members sender =
      or_fatal C (sync_after C sender true) (λ _. pure (send_success (str "Done")))
