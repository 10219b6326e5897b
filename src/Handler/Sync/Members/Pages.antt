-- ===== src/Handler/Sync/Members/Pages.antt =====
-- The loop over the pages of members ends.
use role_srv.Base.{
  ℕ, zero, suc, ◌+◌, ◌≤◌, ◌<◌, List, [], ◌∷◌, Str, ◌≡◌, ◌≢◌, ◌∙◌, ap, refl, arith, Bool, true,
  false, ◌⊎◌, inl, inr, Option, none, some, Bool-cases, if◌then◌else◌, length, ℤ, pos, negsuc, ok,
  Ensures, Ensures-pure, pure, >>=-Ensures, gets,
}
use role_srv.Strconv.{parse_int}
use role_srv.Gateway.{Member}
use role_srv.Services.{Services}
use role_srv.Handler.Sync.Report.Success.{reporting-bind}
use role_srv.Handler.Sync.Members.Run.{sync_members, sync_found}
use role_srv.Handler.Sync.Members.Gather.{
  Gathered, gt, later_id, gather_member, gather_page, gather_pages, page_is_empty, start,
}

-- The id of a member is behind `after`, as numbers.
abbrev pub behind : Str → Member → Bool
behind after m = gt (parse_int m.user.id 64) (parse_int after 64)

abbrev pub Among : Member → List Member → Type 0
Among m [] = ⊥
Among m (x ∷ xs) = (m ≡ x) ⊎ Among m xs

abbrev pub All : (Member → Type 0) → List Member → Type 0
All P [] = Unit
All P (m ∷ ms) = P m × All P ms

-- The gateway's pages of members: a page holds members of the server behind the given id, and
-- reading it changes no member.
pub record PagingLaws (S : Services) : Type 0 where
  pub members : S.World → List Member
  pub page_ok :
      (n : ℕ) (after : Str) (w : S.World) (page : List Member)
      → (S.gateway.get_all_members n after w).0 ≡ ok page
      → All (λ m. Among m (members w) × (behind after m ≡ true)) page
  pub page_frame :
      (n : ℕ) (after : Str) (w : S.World)
      → members (S.gateway.get_all_members n after w).1 ≡ members w

gt_trans : (a b c : ℤ) → gt a b ≡ true → gt b c ≡ true → gt a c ≡ true
gt_trans (pos a) (pos b) (pos c) h k = ground arith
gt_trans (pos a) (pos b) (negsuc c) h k = ground arith
gt_trans (pos a) (negsuc b) (pos c) h k = ground arith
gt_trans (pos a) (negsuc b) (negsuc c) h k = ground arith
gt_trans (negsuc a) (pos b) c h k = ground arith
gt_trans (negsuc a) (negsuc b) (pos c) h k = ground arith
gt_trans (negsuc a) (negsuc b) (negsuc c) h k = ground arith

gt_irrefl : (a : ℤ) → gt a a ≡ false
gt_irrefl (pos a) = ground arith
gt_irrefl (negsuc a) = ground arith

-- How many members are behind an id.
abbrev pub left : Str → List Member → ℕ
left after [] = 0
left after (m ∷ ms) = (if behind after m then 1 else 0) + left after ms

left-le-length : (after : Str) (ms : List Member) → left after ms ≤ length ms
left-le-length after [] = omega arith
left-le-length after (m ∷ ms) = ground (arith, left-le-length after ms)

module _ (last after : Str) (h : gt (parse_int last 64) (parse_int after 64) ≡ true) where
  behind_trans : (m : Member) → behind last m ≡ true → behind after m ≡ true
  behind_trans m k = gt_trans (parse_int m.user.id 64) (parse_int last 64) (parse_int after 64) k h

  left_le : (ms : List Member) → left last ms ≤ left after ms
  left_le [] = omega arith
  left_le (m ∷ ms) = ground (arith, left_le ms, behind_trans m)

  left_lt :
      (ms : List Member) (m : Member) → Among m ms → last ≡ m.user.id → left last ms < left after ms
  left_lt [] m (among) e = elim among [ ]
  left_lt (x ∷ ms) m (inl q) e =
      let here : parse_int last 64 ≡ parse_int x.user.id 64 =
        ap (λ i. parse_int i 64) (e ∙ ap (λ (y : Member). y.user.id) q) in
      ground (arith, left_le ms, gt_irrefl (parse_int x.user.id 64), h, here)
  left_lt (x ∷ ms) m (inr q) e = ground (arith, left_lt ms m q e, behind_trans x)

module _ (S : Services) where
  -- The last id is that of a member of which `R` holds.
  abbrev LastOf : (Member → Type 0) → Str → Type 0
  LastOf R last = (m : Member) × R m × (last ≡ m.user.id)

  last-gather_page :
      (R : Member → Type 0) (page : List Member) (g : Gathered S)
      → All R page
      → LastOf R g.last
      → LastOf R (gather_page S page g).last
  unfolding gather_page gather_member later_id
  last-gather_page R [] g all h = h
  last-gather_page R (p ∷ page) g all h =
      last-gather_page R page _ all.1
        (elim (Bool-cases (behind g.last p)) [ inl e ↦ rw e (p, all.0, refl) | inr e ↦ rw e h ])

  pub first_page :
      (R : Member → Type 0) (p : Member) (page : List Member) (g : Gathered S)
      → All R (p ∷ page)
      → behind g.last p ≡ true
      → LastOf R (gather_page S (p ∷ page) g).last
  unfolding gather_page gather_member later_id
  first_page R p page g all e = last-gather_page R page _ all.1 (rw e (p, all.0, refl))

  module _ (P : PagingLaws S) where
    -- A page that is not empty leaves fewer members behind it.
    left_falls :
        (p : Member) (page : List Member) (g : Gathered S) (w : S.World)
        → All (λ m. Among m (P.members w) × (behind g.last m ≡ true)) (p ∷ page)
        → left (gather_page S (p ∷ page) g).last (P.members w) < left g.last (P.members w)
    left_falls p page g w all =
        let (m, (among, later), e) =
          first_page (λ m. Among m (P.members w) × (behind g.last m ≡ true)) p page g all
            (all.0.1) in
        left_lt _ g.last (rw e later) (P.members w) m among e

    turn :
        (channel : Str) (fuel : ℕ) (g : Gathered S) (w w' : S.World) (page : List Member)
        → P.members w' ≡ P.members w
        → All (λ m. Among m (P.members w) × (behind g.last m ≡ true)) page
        → left g.last (P.members w) < suc fuel
        → ((g' : Gathered S)
            → left g'.last (P.members w') < fuel
            → Ensures (gather_pages S channel fuel g') w' (λ r _. r ≢ none))
        → Ensures
            (if page_is_empty S page
              then pure (some g)
              else gather_pages S channel fuel (gather_page S page g))
            w'
            (λ r _. r ≢ none)
    turn channel fuel g w w' [] e all h rest = Ensures-pure _ (λ q. cc)
    turn channel fuel g w w' (p ∷ page) e all h rest =
        rest _ (rw e (omega (arith, left_falls p page g w all)))

    pages-Ensures :
        (channel : Str) (fuel : ℕ) (g : Gathered S) (w : S.World)
        → left g.last (P.members w) < fuel
        → Ensures (gather_pages S channel fuel g) w (λ r _. r ≢ none)
    unfolding gather_pages
    pages-Ensures channel zero g w h = elim h [ ]
    pages-Ensures channel (suc fuel) g w h = reporting-bind S channel _ _ _ w λ page e.
        turn channel fuel g w _ page (P.page_frame _ _ w) (P.page_ok _ _ w page e) h
          (λ g' k. pages-Ensures channel fuel g' _ k)

  sync_found-Ensures :
      (channel : Str) (send : Bool) (t : ℕ) (g : Option (Gathered S)) (w : S.World)
      → g ≢ none
      → Ensures (sync_found S channel send t g) w (λ r _. r ≢ none)
  sync_found-Ensures channel send t none w h = absurd (h refl)
  sync_found-Ensures channel send t (some g) w h =
      >>=-Ensures _ _ λ _ _. >>=-Ensures _ _ λ _ _. Ensures-pure _ (λ q. cc)

  -- If the gateway serves pages of a server's members, syncMembers does not go on asking for ever:
  -- fuel above the number of members does not run out, whatever else fails.
  pub sync_members_ends :
      (P : PagingLaws S) (channel : Str) (send : Bool) (fuel : ℕ) (w : S.World)
      → length (P.members w) < fuel
      → (sync_members S fuel channel send w).0 ≢ ok none
  unfolding sync_members gets
  sync_members_ends P channel send fuel w h e =
      let ends : Ensures (sync_members S fuel channel send) w (λ r _. r ≢ none) =
        >>=-Ensures _ _ λ t _. >>=-Ensures _ _ λ g f. sync_found-Ensures channel send t g _ (
          (pages-Ensures P channel fuel (start S) w
              (omega (arith, left-le-length [] (P.members w)))).holds
            g f) in
      ends.holds none e refl
