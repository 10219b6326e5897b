-- ===== src/Client/Names.antt =====
-- MapName of client/misc.go, and the texts that the commands build.
pub mod Mapping
use role_srv.Base.{
  Bool, true, false, ◌||◌, not, List, [], ◌∷◌, ◌++◌, Str, str, ◌=?◌, is_empty, Exec, Result, ok,
  err, panic, pure, crash, attempt, ◌>>=◌, if◌then◌else◌, Option, none, some,
}
use role_srv.Proto.{DiscordUser}
use role_srv.Client.Services.{ClientServices}

abbrev pub newline : Str
newline = 10 ∷ []

abbrev pub tab : Str
tab = 9 ∷ []

-- "\t%s\n"
abbrev pub tabbed : Str → Str
tabbed s = tab ++ (s ++ newline)

-- "```%s```"
abbrev pub quoted : Str → Str
quoted s = str "```" ++ (s ++ str "```")

-- A leading quotation mark, then a final one, is taken off.
abbrev pub drop_first_quote : Str → Str
drop_first_quote [] = []
drop_first_quote (c ∷ s) = if (c ∷ []) =? str "\"" then s else c ∷ s

abbrev pub drop_last_quote : Str → Str
drop_last_quote [] = []
drop_last_quote (c ∷ []) = if (c ∷ []) =? str "\"" then [] else c ∷ []
drop_last_quote (c ∷ d ∷ s) = c ∷ drop_last_quote (d ∷ s)

unfoldable pub trim_quotes : Str → Str
trim_quotes s = drop_last_quote (drop_first_quote s)

-- The results of MapName and its flag `found`.
pub record Mapped : Type 0 where
  pub buffer : Str
  pub names : List Str
  pub found : Bool

unfoldable pub display_name : DiscordUser → Str
display_name u = if not (is_empty u.nick) then u.nick else u.username

-- The inner loop, over the users.
unfoldable pub map_users : Str → List DiscordUser → Mapped → Mapped
map_users m [] s = s
map_users m (u ∷ us) s = map_users m us (
    if m =? u.id
    then record {
      buffer = s.buffer ++ tabbed (display_name u);
      names = s.names ++ (display_name u ∷ []);
      found = true;
    }
    else s)

-- What follows the inner loop. The flag is cleared only where it is clear.
unfoldable pub map_unknown : Str → Mapped → Mapped
map_unknown m s =
    if not s.found then record s { buffer = s.buffer ++ tabbed m; found = false } else s

unfoldable pub map_members : List DiscordUser → List Str → Mapped → Mapped
map_members us [] s = s
map_members us (m ∷ ms) s =
    map_members us ms (if is_empty m then s else map_unknown m (map_users m us s))

abbrev pub nothing_mapped : Mapped
nothing_mapped = record { buffer = []; names = []; found = false }

abbrev pub any_member : List Str → Bool
any_member [] = false
any_member (m ∷ ms) = not (is_empty m) || any_member ms

module _ (C : ClientServices) where
  open C use {World, roles}

  -- The error comes back beside the names. Where the list of users could not be read it is a nil
  -- pointer, and the first member that is not empty reads through it.
  abbrev pub map_reply : List Str → Result (List DiscordUser) → Exec World (Mapped × Option Str)
  map_reply ms (ok us) = pure (map_members us ms nothing_mapped, none)
  map_reply ms (err e) = if any_member ms then crash else pure (nothing_mapped, some e)
  map_reply ms panic = crash

  unfoldable pub map_name : List Str → Exec World (Mapped × Option Str)
  map_name ms = attempt roles.get_discord_user_list >>= map_reply ms
