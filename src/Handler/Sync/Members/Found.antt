-- ===== src/Handler/Sync/Members/Found.antt =====
-- The members that syncMembers gathers from the pages: every member of the server.
use role_srv.Base.{
  ◌≡◌, ◌∙◌, ap, sym, subst, arith, Bool, true, false, not, ◌&&◌, ◌||◌, List, [], ◌∷◌, Str, ◌=?◌,
  =?-eq, =?-refl, is_empty, lookup, insert, lookup-insert, at, or_empty, some, is_some, Bool-cases,
  inl, inr,
}
use role_srv.Gateway.{Member, DiscordRole}
use role_srv.StringSets.{StringSetLaws}
use role_srv.Services.{Services}
use role_srv.Handler.Sync.Roles.Differences.{named}
use role_srv.Handler.Sync.Members.Gather.{
  Gathered, or_new, ensure, add_names, gather_member, gather_page, start,
}
use role_srv.Handler.Sync.Members.Given.{planned}
use role_srv.Handler.Sync.Members.Pages.{All, Among}

pub map-All :
    (P Q : Member → Type 0) (ms : List Member) → ((m : Member) → P m → Q m) → All P ms → All Q ms
map-All P Q [] f h = tt
map-All P Q (m ∷ ms) f h = (f m h.0, map-All P Q ms f h.1)

module _ (S : Services) (T : StringSetLaws S.sets) where
  has-add_names :
      (rs : List DiscordRole) (s : S.sets.StringSet) (y : Str)
      → S.sets.has (add_names S rs s) y ≡ ((not (is_empty y) && named rs y) || S.sets.has s y)
  unfolding add_names
  has-add_names [] s y = ground arith
  has-add_names (r ∷ rs) s y =
      has-add_names rs (S.sets.add r.name s) y ∙ elim (Bool-cases (r.name =? y)) [
        | inl e ↦ rw (T.has-add r.name y s, =?-eq r.name y e) (ground (arith, =?-refl y))
        | inr e ↦ rw (T.has-add r.name y s, e) (ground arith)
      ]

  module _ (m : Member) where
    -- The user has an entry.
    abbrev pub visited : Gathered S → Bool
    visited g = is_some (lookup m.user.id g.discord)

    -- A user that has an entry has one for each map: the names of the member's roles on Discord, and
    -- nothing yet in the store.
    pub record Seen (g : Gathered S) : Type 0 where
      pub entry :
          (y : Str)
          → planned S T g.discord m.user.id y ≡ (visited g && (not (is_empty y) && named m.roles y))
      pub name : visited g ≡ true → at m.user.id g.names ≡ m.user.username
      pub room : visited g ≡ true → is_some (lookup m.user.id g.chremoas) ≡ true
      pub bare : (y : Str) → planned S T g.chremoas m.user.id y ≡ false

    pub start-Seen : Seen (start S)
    unfolding lookup
    start-Seen = record {
      entry = λ y. T.has-new y;
      name = λ h. cc;
      room = λ h. cc;
      bare = λ y. T.has-new y;
    }

    gather_member-Seen_self : (g : Gathered S) → Seen g → Seen (gather_member S m g)
    unfolding gather_member ensure at
    gather_member-Seen_self g h =
        let id = m.user.id in
        let s = add_names S m.roles (or_new S (lookup id g.discord)) in
        let now : lookup id (insert id s g.discord) ≡ some s = rw (lookup-insert, =?-refl id) in
        let named_now : lookup id (insert id m.user.username g.names) ≡ some m.user.username =
          rw (lookup-insert, =?-refl id) in
        let kept : lookup id (insert id (or_new S (lookup id g.chremoas)) g.chremoas)
            ≡ some (or_new S (lookup id g.chremoas)) =
          rw (lookup-insert, =?-refl id) in
        record {
          entry = λ y.
              ap (λ o. S.sets.has (or_new S o) y) now
              ∙ has-add_names m.roles (or_new S (lookup id g.discord)) y
              ∙ rw now (ground (arith, h.entry y));
          name = λ v. ap or_empty named_now;
          room = λ v. rw (lookup-insert, =?-refl id);
          bare = λ y. ap (λ o. S.sets.has (or_new S o) y) kept ∙ h.bare y;
        }

    gather_member-Seen_other :
        (p : Member) (g : Gathered S)
        → (p.user.id =? m.user.id) ≡ false
        → Seen g
        → Seen (gather_member S p g)
    unfolding gather_member ensure at
    gather_member-Seen_other p g other h =
        let id = m.user.id in
        let g' = gather_member S p g in
        let d : lookup id g'.discord ≡ lookup id g.discord = rw (lookup-insert, other) in
        let n : lookup id g'.names ≡ lookup id g.names = rw (lookup-insert, other) in
        let c : lookup id g'.chremoas ≡ lookup id g.chremoas = rw (lookup-insert, other) in
        let back = λ (v : visited g' ≡ true). sym (ap is_some d) ∙ v in
        record {
          entry = λ y.
              ap (λ o. S.sets.has (or_new S o) y) d
              ∙ h.entry y
              ∙ sym (ap (λ o. is_some o && (not (is_empty y) && named m.roles y)) d);
          name = λ v. ap or_empty n ∙ h.name (back v);
          room = λ v. ap is_some c ∙ h.room (back v);
          bare = λ y. ap (λ o. S.sets.has (or_new S o) y) c ∙ h.bare y;
        }

    -- The one member of its id.
    abbrev pub IsOnly : Member → Type 0
    IsOnly p = p.user.id ≡ m.user.id → p ≡ m

    gather_member-Seen :
        (p : Member) (g : Gathered S) → IsOnly p → Seen g → Seen (gather_member S p g)
    gather_member-Seen p g only h = elim (Bool-cases (p.user.id =? m.user.id)) [
      | inl e ↦
          subst (λ q. Seen (gather_member S q g)) (sym (only (=?-eq _ _ e)))
            (gather_member-Seen_self g h)
      | inr e ↦ gather_member-Seen_other p g e h
    ]

    pub gather_page-Seen :
        (page : List Member) (g : Gathered S)
        → All IsOnly page
        → Seen g
        → Seen (gather_page S page g)
    unfolding gather_page
    gather_page-Seen [] g only h = h
    gather_page-Seen (p ∷ page) g only h =
        gather_page-Seen page _ only.1 (gather_member-Seen p g only.0 h)

    pub visited_stays :
        (page : List Member) (g : Gathered S)
        → visited g ≡ true
        → visited (gather_page S page g) ≡ true
    unfolding gather_page gather_member
    visited_stays [] g v = v
    visited_stays (p ∷ page) g v = visited_stays page _ (rw lookup-insert (ground arith))

    pub page_visits :
        (page : List Member) (g : Gathered S) → Among m page → visited (gather_page S page g) ≡ true
    unfolding gather_page gather_member
    page_visits [] g h = elim h [ ]
    page_visits (p ∷ page) g (inl e) =
        let here : (p.user.id =? m.user.id) ≡ true =
          ap (λ (q : Member). q.user.id =? m.user.id) (sym e) ∙ =?-refl m.user.id in
        visited_stays page _ (rw (lookup-insert, here))
    page_visits (p ∷ page) g (inr h) = page_visits page _ h
