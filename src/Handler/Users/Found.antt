-- ===== src/Handler/Users/Found.antt =====
-- GetDiscordUser beside GetDiscordUserList.
use role_srv.Base.{
  ◌≡◌, ◌∙◌, refl, ap, List, [], ◌∷◌, Str, str, ◌=?◌, Option, none, some, Result, ok, err, panic,
  pure, raise, ◌>>=◌, continue, map, if◌then◌else◌, Bool-cases, inl, inr,
}
use role_srv.Proto.{DiscordUser}
use role_srv.Gateway.{Member}
use role_srv.Services.{Services}
use role_srv.Handler.Users.{
  user_details, listed_user, find_user, get_discord_user, get_discord_user_list,
}

-- The first user of a list with an id.
abbrev pub first_user : Str → List DiscordUser → Option DiscordUser
first_user id [] = none
first_user id (u ∷ us) = if id =? u.id then some u else first_user id us

-- The user as GetDiscordUser replies with it: without the id and the nick.
abbrev pub nameless : Option DiscordUser → Result DiscordUser
nameless none = err (str "User not found")
nameless (some u) = ok (record u { id = []; nick = [] })

find_user-first :
    {W : Type 0} (id : Str) (ms : List Member) (w : W)
    → find_user id ms w ≡ (nameless (first_user id (map listed_user ms)), w)
unfolding find_user listed_user user_details raise pure
find_user-first id [] w = refl
find_user-first id (m ∷ ms) w = elim (Bool-cases (id =? m.user.id)) [
  | inl same ↦ rw same
  | inr other ↦ rw other (find_user-first id ms w)
]

module _ (S : Services) where
  of_reply :
      (id : Str) (r : Result (List Member)) (w : S.World) (us : List DiscordUser)
      → (continue r (λ ms. pure (map listed_user ms)) w).0 ≡ ok us
      → continue r (find_user id) w
        ≡ (nameless (first_user id us), (continue r (λ ms. pure (map listed_user ms)) w).1)
  unfolding pure
  of_reply id (ok ms) w us h =
      let same : map listed_user ms ≡ us = cc in
      find_user-first id ms w ∙ ap (λ l. (nameless (first_user id l), w)) same
  of_reply id (err e) w us h = cc
  of_reply id panic w us h = cc

  -- Where GetDiscordUserList replies with a list, GetDiscordUser in the same world replies with the
  -- first user of that list that has the id, without its id and nick, and with the error that there is
  -- no such user where the list has none. Both leave the same world.
  pub get_discord_user-first :
      (id : Str) (w : S.World) (us : List DiscordUser)
      → (get_discord_user_list S w).0 ≡ ok us
      → get_discord_user S id w ≡ (nameless (first_user id us), (get_discord_user_list S w).1)
  unfolding get_discord_user get_discord_user_list ◌>>=◌
  get_discord_user-first id w us h =
      let ask = S.gateway.get_all_members_as_slice w in of_reply id ask.0 ask.1 us h
