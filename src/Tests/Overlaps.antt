-- ===== src/Tests/Overlaps.antt =====
-- Requests that overlap, over a store in memory.
use role_srv.Base.{[], ◌∷◌, Str, str, false, ◌≡◌, refl, ok, contains}
use role_srv.Proto.{Filter, Members}
use role_srv.Handler.Filters.{add_filter, remove_filter, add_members}
use role_srv.Handler.Overlap.{overlapped, named, Overlap, add_members-overlaps}
use role_srv.Redis.{absent, has}
use role_srv.Handler.Keys.{description_key, members_key}
use role_srv.Tests.Memory.Store.{Memory}
use role_srv.Tests.Memory.Laws.{memory_laws}
use role_srv.Tests.Data.{S, corp, machine}

abbrev fleet : Filter
fleet = record { name = str "fleet"; description = str "The fleet" }

-- A store with a filter that has no members.
abbrev with_fleet : Memory
with_fleet = (add_filter S fleet corp).1

abbrev recruits : Members
recruits = record { name = str "7" ∷ str "9" ∷ []; filter = str "fleet" }

fleet-Overlap : Overlap S memory_laws recruits with_fleet
unfolding machine
fleet-Overlap = record {
  there = 0;
  found = refl;
  answered = record {
    there = 0;
    members = [];
    keys = 1;
    found = refl;
    read = refl;
    dropped = refl;
  };
  added = (refl, (refl, tt));
}

nobody_there :
    (user : Str) → has (memory_laws.view with_fleet (members_key S (str "fleet"))) user ≡ false
unfolding machine
nobody_there user = refl

add_members-overlaps_example :
    let run = add_members (overlapped S (remove_filter S (named recruits))) recruits with_fleet in
    ((remove_filter S (named recruits) with_fleet).0 ≡ ok tt)
    × (run.0 ≡ ok tt)
    × (memory_laws.view run.1 (description_key S (str "fleet")) ≡ absent)
    × ((user : Str)
        → has (memory_laws.view run.1 (members_key S (str "fleet"))) user
          ≡ contains recruits.name user)
add_members-overlaps_example =
    add_members-overlaps S memory_laws recruits with_fleet fleet-Overlap nobody_there
