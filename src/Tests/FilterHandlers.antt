-- ===== src/Tests/FilterHandlers.antt =====
-- The handlers of filters over a store in memory.
use role_srv.Base.{
  for_each, List, lookup, [], ◌∷◌, Str, str, ◌=?◌, ◌≡◌, refl, ◌||◌, ok, err, contains,
  if◌then◌else◌,
}
use mathlib.Core.List.{Mem}
use role_srv.Base.Text.Split.{Lacks}
use role_srv.Handler.Filters.Listing.{get_filters-add_filter}
use role_srv.Proto.{Filter, Members}
use role_srv.Redis.{has}
use role_srv.Services.{Services}
use role_srv.Handler.Keys.{description_key, members_key}
use role_srv.Handler.Filters.{
  get_filters, add_filter, remove_filter, add_members, remove_members, add_each,
}
use role_srv.Handler.Filters.Describe.{Undescribed, remove_filter-removes, MembersReply}
use role_srv.Handler.Filters.Change.{AllReply, add_members-adds}
use role_srv.Handler.Filters.Last.{NonePanics, last_reply, members_reply_last}
use role_srv.Handler.Tidy as Tidy
use role_srv.Handler.Tidy.{Request, serve_all, IsTidy}
use role_srv.Handler.Tidy.History.{serve_all-IsTidy}
use role_srv.Tests.Memory.Store.{Memory, memory}
use role_srv.Tests.Memory.Laws.{memory_laws}
use role_srv.Tests.Data.{S, corp, machine}

abbrev pilots : Filter
pilots = record { name = str "pilots"; description = str "All pilots" }

add_filter_runs : (add_filter S pilots corp).0 ≡ ok tt
unfolding machine
add_filter_runs = refl

abbrev filters_then : List Filter
filters_then = record { name = str "corp"; description = str "The corporation" } ∷ pilots ∷ []

pilots_plain : Lacks b':' pilots.name
unfolding str
pilots_plain = search depth 12

get_filters_runs : (get_filters S (add_filter S pilots corp).1).0 ≡ ok filters_then
unfolding machine get_filters for_each
get_filters_runs = refl

get_filters-add_filter_example : Mem pilots filters_then
get_filters-add_filter_example =
    get_filters-add_filter S memory_laws pilots corp filters_then pilots_plain add_filter_runs
      get_filters_runs

remove_filter_runs : (remove_filter S pilots (add_filter S pilots corp).1).0 ≡ ok tt
unfolding machine
remove_filter_runs = refl

members_reply : MembersReply S memory_laws pilots (add_filter S pilots corp).1
unfolding machine
members_reply = refl

remove_filter-removes_example :
    Undescribed S memory_laws pilots
      (add_filter S pilots corp).1
      (remove_filter S pilots (add_filter S pilots corp).1).1
remove_filter-removes_example =
    remove_filter-removes S memory_laws pilots (add_filter S pilots corp).1 members_reply
      remove_filter_runs

abbrev join : Members
join = record { name = str "9" ∷ str "10" ∷ []; filter = str "corp" }

corp_there : (memory.exists (description_key S (str "corp")) corp).0 ≡ ok 1
unfolding machine
corp_there = refl

adds_reply : AllReply S memory_laws memory.s_add (members_key S (str "corp")) join.name corp
unfolding machine
adds_reply = (refl, (refl, tt))

add_members-adds_example :
    ((add_members S join corp).0 ≡ ok tt)
    × ((y : Str)
        → has (memory_laws.view (add_members S join corp).1 (members_key S (str "corp"))) y
          ≡ (contains join.name y || has (memory_laws.view corp (members_key S (str "corp"))) y))
add_members-adds_example = add_members-adds S memory_laws join corp 0 corp_there adds_reply

-- A Redis whose SADD of one user fails.
abbrev faulty : Services
faulty = record S {
  redis = record memory {
    s_add = λ k x w. if x =? str "9" then (err (str "timeout"), w) else memory.s_add k x w;
  };
}

corp_found : faulty.redis.exists (description_key faulty (str "corp")) corp ≡ (ok 1, corp)
unfolding machine
corp_found = refl

adds_go_on :
    NonePanics (faulty.redis.s_add (members_key S (str "corp"))) (str "9" ∷ []) (str "10") corp
unfolding machine NonePanics
adds_go_on = (λ e. cc, λ e. cc)

removes_go_on :
    NonePanics (faulty.redis.s_rem (members_key S (str "corp"))) (str "9" ∷ []) (str "10") corp
unfolding machine NonePanics
removes_go_on = (λ e. cc, λ e. cc)

members_reply_last_example :
    (add_members faulty join corp
      ≡ last_reply (faulty.redis.s_add (members_key S (str "corp"))) (str "9" ∷ []) (str "10") corp)
    × (remove_members faulty join corp
        ≡ last_reply
            (faulty.redis.s_rem (members_key S (str "corp")))
            (str "9" ∷ [])
            (str "10")
            corp)
members_reply_last_example =
    members_reply_last faulty join (str "9" ∷ []) (str "10") corp corp 0 refl corp_found adds_go_on
      removes_go_on

-- The first SADD fails, and the reply is success.
first_error_is_lost :
    ((faulty.redis.s_add (members_key S (str "corp")) (str "9") corp).0 ≡ err (str "timeout"))
    × ((add_members faulty join corp).0 ≡ ok tt)
unfolding machine add_members add_each
first_error_is_lost = (refl, refl)

-- A store with nothing in it, and a history of one filter. The first RemoveFilter is refused.
abbrev nothing : Memory
nothing = record corp { db = [] }

abbrev of_pilots : Members
of_pilots = record { name = str "7" ∷ []; filter = str "pilots" }

abbrev requests : List Request
requests =
    Request.add_filter pilots
    ∷ Request.add_members of_pilots
    ∷ Request.remove_filter pilots
    ∷ Request.remove_members of_pilots
    ∷ Request.remove_filter pilots
    ∷ []

requests_reply : Tidy.AllReply S memory_laws requests nothing
unfolding machine
requests_reply = (tt, (tt, (refl, (tt, (refl, tt)))))

nothing-IsTidy : IsTidy S memory_laws nothing
unfolding lookup
nothing-IsTidy = record { described = λ f user h. cc }

serve_all-IsTidy_example : IsTidy S memory_laws (serve_all S requests nothing)
serve_all-IsTidy_example =
    serve_all-IsTidy S memory_laws requests nothing requests_reply nothing-IsTidy
