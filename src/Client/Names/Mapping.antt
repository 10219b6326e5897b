-- ===== src/Client/Names/Mapping.antt =====
-- What MapName writes.
use role_srv.Base.{
  List, [], ◌∷◌, Str, ◌=?◌, ◌≡◌, refl, arith, Bool, true, false, ◌||◌, is_empty, Bool-cases, inl,
  inr,
}
use role_srv.Proto.{DiscordUser}
use role_srv.Client.Names.{Mapped, map_users, map_unknown, map_members}

-- Discord has a user of that id.
abbrev pub known : List DiscordUser → Str → Bool
known [] m = false
known (u ∷ us) m = m =? u.id || known us m

map_users_unknown :
    (m : Str) (us : List DiscordUser) (s : Mapped) → known us m ≡ false → map_users m us s ≡ s
unfolding map_users
map_users_unknown m [] s h = refl
map_users_unknown m (u ∷ us) s h = elim (Bool-cases (m =? u.id)) [
  | inl e ↦ ground arith
  | inr e ↦ rw e (map_users_unknown m us s (ground arith))
]

-- Members whose ids Discord does not have.
abbrev pub AllUnknown : List DiscordUser → List Str → Type 0
AllUnknown us [] = Unit
AllUnknown us (m ∷ ms) = (known us m ≡ false) × AllUnknown us ms

map_unknown_found : (m : Str) (s : Mapped) → s.found ≡ true → map_unknown m s ≡ s
unfolding map_unknown
map_unknown_found m s h = ground arith

-- Once a member was found, MapName drops every further member that Discord does not have: nothing is
-- written for it.
pub map_members-drops :
    (us : List DiscordUser) (ms : List Str) (s : Mapped)
    → s.found ≡ true
    → AllUnknown us ms
    → map_members us ms s ≡ s
unfolding map_members
map_members-drops us [] s found h = refl
map_members-drops us (m ∷ ms) s found (new, rest) = elim (Bool-cases (is_empty m)) [
  | inl e ↦ rw e (map_members-drops us ms s found rest)
  | inr e ↦
      rw (e, map_users_unknown m us s new, map_unknown_found m s found)
        (map_members-drops us ms s found rest)
]
