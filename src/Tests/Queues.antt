-- ===== src/Tests/Queues.antt =====
-- The thread and its channel over a Discord server with fixed members.
use role_srv.Base.{
  ◌≢◌, refl, arith, [], ◌∷◌, List, Str, str, true, false, Option, none, some, ok, panic, length,
  ◌<◌,
}
use role_srv.Gateway.{Member}
use role_srv.Services.{Services}
use role_srv.Handler.Sync.Answers.{Answers}
use role_srv.Handler.Sync.Members.Pages.{PagingLaws}
use role_srv.Handler.Sync.Thread.{System, ready}
use role_srv.Handler.Sync.Thread.Drain.{Drained, queue_drains}
use role_srv.Tests.Memory.Store.{Memory, or_wrong, inter}
use role_srv.Tests.Memory.Guild.{live, guild_gateway, later, page_lem, newcomer}
use role_srv.Tests.RoleSyncs.{town}

abbrev crew : List Member
crew = newcomer (str "7") [] ∷ newcomer (str "9") [] ∷ []

-- The members of the server stay the same.
abbrev steady : Services
steady = record live {
  gateway = record guild_gateway { get_all_members = λ n after w. (ok (later after crew), w) };
}

abbrev steady_paging : PagingLaws steady
steady_paging = record {
  members = λ w. crew;
  page_ok = λ n after w page h. page_lem after crew page h;
  page_frame = λ n after w. refl;
}

or_wrong-ne-panic : {A B : Type 0} (o : Option A) (f : A → B) → or_wrong o f ≢ panic
or_wrong-ne-panic none f h = cc
or_wrong-ne-panic (some a) f h = cc

inter-ne-panic : (o p : Option (List Str)) → inter o p ≢ panic
inter-ne-panic none p h = cc
inter-ne-panic (some a) none h = cc
inter-ne-panic (some a) (some b) h = cc

steady-Answers : Answers steady
steady-Answers = record {
  exists = λ k. record { at = λ w h. cc };
  keys = λ p. record { at = λ w h. cc };
  h_get_all = λ k. record { at = λ w. or_wrong-ne-panic _ _ };
  s_members = λ k. record { at = λ w. or_wrong-ne-panic _ _ };
  s_inter = λ a b. record { at = λ w. inter-ne-panic _ _ };
  s_is_member = λ k x. record { at = λ w. or_wrong-ne-panic _ _ };
  get_all_members = λ n after. record { at = λ w h. cc };
  get_all_roles = record { at = λ w h. cc };
  create_role = λ r. record { at = λ w h. cc };
  delete_role = λ r. record { at = λ w h. cc };
  edit_role = λ q. record { at = λ w h. cc };
  update_member = λ m ids. record { at = λ w h. cc };
  send = λ c t. record { at = λ w h. cc };
}

few : (w : Memory) → length crew < 5
few w = omega arith

-- Two requests wait.
abbrev waiting : System steady
waiting = record {
  queue =
      record { channel_id = str "c"; user_id = str "1"; send_message = true }
      ∷ record { channel_id = str "d"; user_id = str "2"; send_message = false }
      ∷ [];
  taken = [];
  thread = ready;
  world = town;
}

queue_drains_example : (t : System steady) × Drained steady 5 waiting t
queue_drains_example = queue_drains steady 5 steady-Answers steady_paging few waiting refl
