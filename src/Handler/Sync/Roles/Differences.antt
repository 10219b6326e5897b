-- ===== src/Handler/Sync/Roles/Differences.antt =====
-- Which roles syncRoles creates, deletes and edits.
use role_srv.Base.{
  List, [], ◌∷◌, Str, str, ◌=?◌, =?_iff, ◌≡◌, ◌∙◌, ap, arith, Bool, false, not, ◌&&◌, ◌||◌,
  contains, is_empty,
}
use role_srv.StringSets.{StringSetLaws}
use role_srv.Gateway.{DiscordRole}
use role_srv.Services.{Services}
use role_srv.Handler.Sync.Roles.{add_all, ignore_set, discord_names}

-- Discord has a role of that name.
abbrev pub named : List DiscordRole → Str → Bool
named [] x = false
named (r ∷ rs) x = r.name =? x || named rs x

module _ (S : Services) (T : StringSetLaws S.sets) where
  open S.sets use {StringSet, has, new, range, difference, intersection}

  -- The configuration protects the role.
  abbrev pub ignored : Str → Bool
  ignored x = S.bot_role =? x || str "@everyone" =? x || contains S.ignored_roles x

  has-add_all :
      (xs : List Str) (s : StringSet) (x : Str)
      → has (add_all S xs s) x ≡ ((not (is_empty x) && contains xs x) || has s x)
  unfolding add_all contains
  has-add_all [] s x = ground arith
  has-add_all (a ∷ xs) s x =
      ground (arith, has-add_all xs (S.sets.add a s) x, T.has-add a x s, =?_iff a x)

  has-ignore_set : (x : Str) → has (ignore_set S) x ≡ (not (is_empty x) && ignored x)
  unfolding ignore_set
  has-ignore_set x =
      has-add_all S.ignored_roles _ x
      ∙ ground (
        arith,
        T.has-add (str "@everyone") x (S.sets.add S.bot_role new),
        T.has-add S.bot_role x new,
        T.has-new x,
        =?_iff (str "@everyone") x,
        =?_iff S.bot_role x,
      )

  pub has-discord_names :
      (rs : List DiscordRole) (s : StringSet) (x : Str)
      → has (discord_names S rs s) x
        ≡ ((not (is_empty x) && (named rs x && not (ignored x))) || has s x)
  unfolding discord_names
  has-discord_names [] s x = ground arith
  has-discord_names (r ∷ rs) s x =
      has-discord_names rs _ x
      ∙ ground (arith, has-ignore_set r.name, T.has-add r.name x s, =?_iff r.name x)

  -- The names whose roles syncRoles deletes are exactly those that Discord has, that the store does
  -- not want, and that the configuration does not protect. Those that it edits are the wanted ones
  -- among the unprotected roles of Discord, and those that it creates are the other wanted ones.
  differences_exact :
      (rs : List DiscordRole) (wanted : StringSet) (x : Str)
      → let there = discord_names S rs new in
        let open_to_change = not (is_empty x) && (named rs x && not (ignored x)) in
        (contains (range (difference there wanted)) x ≡ (open_to_change && not (has wanted x)))
        × (contains (range (intersection there wanted)) x ≡ (open_to_change && has wanted x))
        × (contains (range (difference wanted there)) x ≡ (has wanted x && not open_to_change))
  differences_exact rs wanted x =
      let there = discord_names S rs new in
      let e : has there x ≡ (not (is_empty x) && (named rs x && not (ignored x))) =
        has-discord_names rs new x ∙ ground (arith, T.has-new x) in
      (
        T.contains-range _ x
            ∙ T.has-difference there wanted x
            ∙ ap (λ b. b && not (has wanted x)) e,
        T.contains-range _ x ∙ T.has-intersection there wanted x ∙ ap (λ b. b && has wanted x) e,
        T.contains-range _ x ∙ T.has-difference wanted there x ∙ ap (λ b. has wanted x && not b) e,
      )
