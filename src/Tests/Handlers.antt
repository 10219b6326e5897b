-- ===== src/Tests/Handlers.antt =====
-- The handlers of roles over a store in memory.
use role_srv.Base.{[], ◌∷◌, Str, str, ◌≡◌, ◌≢◌, refl, arith, true, false, ok, contains, is_ok}
use role_srv.Proto.{UpdateInfo, Filter, Members}
use role_srv.Redis.{present}
use role_srv.Handler.Keys.{role_key, description_key, members_key}
use role_srv.Handler.Keys.Distinct.{role-ne-description, role-ne-members}
use role_srv.Handler.Writes.{writes_frame}
use role_srv.Handler.Roles.{add_role, get_role, get_roles, remove_role, update_role}
use role_srv.Handler.Roles.Add.{add_role-keeps_existing}
use role_srv.Handler.Reads.{reads_frame}
use role_srv.Handler.Roles.Update.{Updated, update_role-sets, WriteReplies}
use role_srv.Handler.Roles.RoundTrip.{FitsInt32, get_role-add_role}
use role_srv.Handler.Membership.{role_membership, get_role_membership, list_user_roles}
use role_srv.Handler.Membership.Who.{role_membership-decides, fits_filters, filter_of}
use role_srv.Handler.Filters.{
  get_filters, get_members, add_filter, remove_filter, add_members, remove_members,
}
use role_srv.Tests.Memory.Laws.{memory_laws}
use role_srv.Tests.Memory.Sets.{list_sets_laws, role_fields_lem}
use role_srv.Tests.Data.{S, alpha, corp, machine, with_alpha, add_role_runs, get_role_runs}

alpha_fits : FitsInt32 alpha
alpha_fits = record { color = omega arith; position = omega arith; permissions = omega arith }

get_role-add_role_example : alpha ≡ alpha
get_role-add_role_example =
    get_role-add_role S memory_laws role_fields_lem alpha alpha corp alpha_fits add_role_runs
      get_role_runs

beta-ne-alpha : role_key S (str "beta") ≢ role_key S (str "alpha")
unfolding str
beta-ne-alpha e = cc

alpha_there : present (memory_laws.view with_alpha (role_key S (str "alpha"))) ≡ true
unfolding machine
alpha_there = refl

add_role-keeps_existing_example :
    (is_ok (add_role S alpha with_alpha).0 ≡ false)
    × (memory_laws.view (add_role S alpha with_alpha).1 (role_key S (str "alpha"))
        ≡ memory_laws.view with_alpha (role_key S (str "alpha")))
add_role-keeps_existing_example = add_role-keeps_existing S memory_laws alpha with_alpha alpha_there

abbrev red : UpdateInfo
red = record { name = str "alpha"; key = str "Color"; value = str "16711680" }

update_role_runs : (update_role S red with_alpha).0 ≡ ok tt
unfolding machine
update_role_runs = refl

write_replies : WriteReplies S memory_laws red with_alpha
unfolding machine
write_replies = refl

update_role-sets_example : Updated S memory_laws red with_alpha (update_role S red with_alpha).1
update_role-sets_example =
    update_role-sets S memory_laws red with_alpha write_replies update_role_runs

role_membership_runs : (role_membership S (str "alpha") with_alpha).0 ≡ ok (str "8" ∷ str "7" ∷ [])
unfolding machine
role_membership_runs = refl

role_membership-decides_example :
    contains (str "8" ∷ str "7" ∷ []) (str "7")
    ≡ fits_filters S memory_laws list_sets_laws with_alpha
        (filter_of S memory_laws list_sets_laws with_alpha (str "alpha") (str "FilterA"))
        (filter_of S memory_laws list_sets_laws with_alpha (str "alpha") (str "FilterB"))
        (str "7")
role_membership-decides_example =
    role_membership-decides S memory_laws list_sets_laws (str "alpha") (str "7") with_alpha
      (str "8" ∷ str "7" ∷ []) role_membership_runs

abbrev beta_key : Str
beta_key = role_key S (str "beta")

reads_frame_example :
    (memory_laws.view (get_role S alpha with_alpha).1 beta_key
      ≡ memory_laws.view with_alpha beta_key)
    × (memory_laws.view (get_roles S with_alpha).1 beta_key ≡ memory_laws.view with_alpha beta_key)
    × (memory_laws.view (get_role_membership S (str "alpha") with_alpha).1 beta_key
        ≡ memory_laws.view with_alpha beta_key)
    × (memory_laws.view (list_user_roles S (str "alpha") with_alpha).1 beta_key
        ≡ memory_laws.view with_alpha beta_key)
    × (memory_laws.view (get_filters S with_alpha).1 beta_key
        ≡ memory_laws.view with_alpha beta_key)
    × (memory_laws.view (get_members S (str "alpha") with_alpha).1 beta_key
        ≡ memory_laws.view with_alpha beta_key)
reads_frame_example = reads_frame S memory_laws alpha (str "alpha") with_alpha beta_key

beta-ne-description : beta_key ≢ description_key S (str "corp")
beta-ne-description = role-ne-description S memory_laws (str "beta") (str "corp")

beta-ne-members : beta_key ≢ members_key S (str "corp")
beta-ne-members = role-ne-members S memory_laws (str "beta") (str "corp")

abbrev crew : Members
crew = record { name = str "7" ∷ []; filter = str "corp" }

abbrev corporation : Filter
corporation = record { name = str "corp"; description = str "The corporation" }

writes_frame_example :
    (memory_laws.view (add_role S alpha with_alpha).1 beta_key
      ≡ memory_laws.view with_alpha beta_key)
    × (memory_laws.view (remove_role S alpha with_alpha).1 beta_key
        ≡ memory_laws.view with_alpha beta_key)
    × (memory_laws.view (update_role S red with_alpha).1 beta_key
        ≡ memory_laws.view with_alpha beta_key)
    × (memory_laws.view (add_filter S corporation with_alpha).1 beta_key
        ≡ memory_laws.view with_alpha beta_key)
    × (memory_laws.view (remove_filter S corporation with_alpha).1 beta_key
        ≡ memory_laws.view with_alpha beta_key)
    × (memory_laws.view (add_members S crew with_alpha).1 beta_key
        ≡ memory_laws.view with_alpha beta_key)
    × (memory_laws.view (remove_members S crew with_alpha).1 beta_key
        ≡ memory_laws.view with_alpha beta_key)
writes_frame_example =
    writes_frame S memory_laws alpha red corporation crew with_alpha beta_key beta-ne-alpha
      beta-ne-alpha beta-ne-description beta-ne-members
