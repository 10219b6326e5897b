-- ===== src/Handler/Filters.antt =====
-- The filters and their members: the handlers of handler/Roles.go below "Filter related stuff".
pub mod Describe
pub mod Change
pub mod Refused
pub mod One
pub mod Last
pub mod Listing
use role_srv.Base.{
  Bool, true, false, not, List, [], ◌∷◌, ◌++◌, Str, str, ◌==◌, is_empty, split, last_part, Exec,
  Result, ok, err, panic, pure, attempt, lift, outcome, require, ◌>>=◌, ◌>>◌, if◌then◌else◌,
  for_each,
}
use role_srv.Proto.{Filter, Members}
use role_srv.Services.{Services}
use role_srv.Handler.Keys.{description_key, members_key}

-- What `members` holds after `members, err := m` when the error is not looked at.
abbrev pub slice_of : Result (List Str) → List Str
slice_of (ok xs) = xs
slice_of _ = []

abbrev pub is_nil : List Str → Bool
is_nil [] = true
is_nil (x ∷ xs) = false

abbrev pub non_empty : List Str → List Str
non_empty [] = []
non_empty (x ∷ xs) = if is_empty x then non_empty xs else x ∷ non_empty xs

module _ (S : Services) where
  open S use {World}
  open S.redis use {exists, get, set, del, keys, s_members, s_add, s_rem}

  unfoldable pub get_filters : Exec World (List Filter)
  get_filters = do
    ks ← keys (description_key S (str "*"))
    for_each
        (λ k. do
          text ← get k
          pure (record { name = last_part (split k b':'); description = text }))
        ks

  unfoldable pub add_filter : Filter → Exec World (Unit {0})
  add_filter f = do
    require (not (is_empty f.name)) (str "Name is required.")
    require (not (is_empty f.description)) (str "Description is required.")
    n ← exists (description_key S f.name)
    require (not (n == 1)) (str "Filter `" ++ (f.name ++ str "` already exists."))
    set (description_key S f.name) f.description
    pure tt

  -- The error of SMEMBERS is dropped.
  unfoldable pub remove_filter : Filter → Exec World (Unit {0})
  remove_filter f = do
    n ← exists (description_key S f.name)
    require (not (n == 0)) (str "Filter `" ++ (f.name ++ str "` doesn't exists."))
    r ← attempt (s_members (members_key S f.name))
    require (is_nil (slice_of r)) (str "Filter `" ++ (f.name ++ str "` not empty."))
    del (description_key S f.name)
    pure tt

  unfoldable pub get_members : Str → Exec World (List Str)
  get_members filter = do xs ← s_members (members_key S filter); pure (non_empty xs)

  -- The loops of AddMembers and RemoveMembers: each round assigns `err`, so the error that is
  -- returned is that of the last command.
  unfoldable pub add_each : Str → List Str → Result (Unit {0}) → Exec World (Unit {0})
  add_each k [] last = lift last
  add_each k (x ∷ xs) last = do r ← attempt (s_add k x); add_each k xs (outcome r)

  unfoldable pub remove_each : Str → List Str → Result (Unit {0}) → Exec World (Unit {0})
  remove_each k [] last = lift last
  remove_each k (x ∷ xs) last = do r ← attempt (s_rem k x); remove_each k xs (outcome r)

  unfoldable pub add_members : Members → Exec World (Unit {0})
  add_members m = do
    n ← exists (description_key S m.filter)
    require (not (n == 0)) (str "Filter `" ++ (m.filter ++ str "` doesn't exists."))
    add_each (members_key S m.filter) m.name (ok tt)

  unfoldable pub remove_members : Members → Exec World (Unit {0})
  remove_members m = do
    n ← exists (description_key S m.filter)
    require (not (n == 0)) (str "Filter `" ++ (m.filter ++ str "` doesn't exists."))
    remove_each (members_key S m.filter) m.name (ok tt)
