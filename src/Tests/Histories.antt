-- ===== src/Tests/Histories.antt =====
-- A history of the store, and lists of roles.
use role_srv.Base.{[], ◌∷◌, str, ◌≡◌, refl, ok, true, for_each}
use role_srv.Handler.Roles.{role_names, get_roles, role_summary}
use role_srv.Handler.Roles.Summary.{summaries, get_roles-lists}
use role_srv.Proto.{Role, zero_role}
use role_srv.Handler.Membership.{list_user_roles}
use role_srv.Tests.Memory.Laws.{memory_laws}
use role_srv.Tests.Memory.Sets.{list_sets_laws}
use role_srv.Tests.Data.{S, alpha, corp, machine, with_alpha}
use role_srv.Handler.Roles.Book.{
  Op, add, set, remove, apply, apply_all, AllReply, History, book, apply_all-refines,
}
use role_srv.Handler.Membership.{add_if_member}
use role_srv.Handler.Membership.Listing.{listed_roles, list_user_roles-lists}
use role_srv.Base.{List, fold_each}

abbrev history : List Op
history =
    add alpha
    ∷ set (record { name = str "alpha"; key = str "Color"; value = str "7" })
    ∷ remove alpha
    ∷ []

history_runs : (apply_all S memory_laws history corp).0 ≡ ok tt
unfolding apply_all apply machine
history_runs = refl

history_replies : AllReply S memory_laws history corp
unfolding apply machine
history_replies = (tt, (refl, (tt, tt)))

apply_all-refines_example :
    History S memory_laws
      (book S memory_laws corp)
      history
      (book S memory_laws (apply_all S memory_laws history corp).1)
apply_all-refines_example =
    apply_all-refines S memory_laws history corp history_replies history_runs

alpha_names : (role_names S with_alpha).0 ≡ ok (str "alpha" ∷ [])
unfolding machine
alpha_names = refl

seven_is_alpha : (list_user_roles S (str "7") with_alpha).0 ≡ ok (alpha ∷ [])
unfolding list_user_roles add_if_member fold_each machine
seven_is_alpha = refl

list_user_roles-lists_example :
    alpha ∷ [] ≡ listed_roles S (memory_laws.view with_alpha) (str "7") (str "alpha" ∷ [])
list_user_roles-lists_example =
    list_user_roles-lists S memory_laws list_sets_laws (str "7") with_alpha (str "alpha" ∷ [])
      (alpha ∷ []) alpha_names seven_is_alpha

-- The entry of GetRoles has the name of the key, the Name and the flag that is on.
abbrev entries : List Role
entries = record zero_role { short_name = str "alpha"; name = str "Alpha Team"; sync = true } ∷ []

entries_listed : (get_roles S with_alpha).0 ≡ ok entries
unfolding get_roles role_summary for_each machine
entries_listed = refl

get_roles-lists_example : entries ≡ summaries S (memory_laws.view with_alpha) (str "alpha" ∷ [])
get_roles-lists_example =
    get_roles-lists S memory_laws with_alpha (str "alpha" ∷ []) entries alpha_names entries_listed
