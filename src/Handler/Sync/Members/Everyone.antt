-- ===== src/Handler/Sync/Members/Everyone.antt =====
-- The loop of syncMembers over the pages of members leaves nobody out.
use role_srv.Base.{
  ℕ, zero, suc, ◌≡◌, sym, subst, refl, arith, true, List, [], ◌∷◌, Str, some, ok, pure, Ensures,
  Ensures-pure, inl, inr, ◌⊎◌, if◌then◌else◌,
}
use role_srv.Gateway.{Member}
use role_srv.Redis.{RedisLaws}
use role_srv.StringSets.{StringSetLaws}
use role_srv.Services.{Services}
use role_srv.Handler.Sync.Report.Success.{reporting-bind}
use role_srv.Handler.Sync.Members.Gather.{
  Gathered, gather_page, gather_pages, page_is_empty, number_per_page, start,
}
use role_srv.Handler.Sync.Members.Pages.{All, Among, behind, first_page}
use role_srv.Handler.Sync.Members.Server.{Server, ServerLaws, BehindPage}
use role_srv.Handler.Sync.Members.Found.{
  IsOnly, Seen, visited, map-All, start-Seen, gather_page-Seen, visited_stays, page_visits,
}

module _ (S : Services) (L : RedisLaws S.redis) (T : StringSetLaws S.sets) (D : Server S L)
    (Q : ServerLaws S L D) (m : Member) where
  -- The member is seen, or still behind the last id.
  record Pending (g : Gathered S) : Type 0 where
    seen : Seen S T m g
    ahead : (visited S T m g ≡ true) ⊎ (behind g.last m ≡ true)

  pub record Found (g : Gathered S) : Type 0 where
    pub seen : Seen S T m g
    pub there : visited S T m g ≡ true

  -- No other member has the id.
  abbrev pub IsUnique : S.World → Type 0
  IsUnique w = (p : Member) → Among p (D.paging.members w) → IsOnly S T m p

  next-Pending :
      (p : Member) (page : List Member) (g : Gathered S)
      → All (λ x. IsOnly S T m x × (behind g.last x ≡ true)) (p ∷ page)
      → (behind g.last m ≡ true → Among m (p ∷ page) ⊎ BehindPage m (p ∷ page))
      → Pending g
      → Pending (gather_page S (p ∷ page) g)
  next-Pending p page g all rest h = record {
    seen = gather_page-Seen S T m (p ∷ page) g (map-All _ _ (p ∷ page) (λ x k. k.0) all) h.seen;
    ahead = elim h.ahead [
      | inl v ↦ inl (visited_stays S T m (p ∷ page) g v)
      | inr b ↦ elim (rest b) [
        | inl among ↦ inl (page_visits S T m (p ∷ page) g among)
        | inr later ↦
            let (q, past, e) =
              first_page S (λ x. behind x.user.id m ≡ true) p page g later (all.0.1) in
            inr (rw e past)
      ]
    ];
  }

  last-Found :
      (g : Gathered S)
      → (behind g.last m ≡ true → Among m [] ⊎ BehindPage m [])
      → Pending g
      → Found g
  last-Found g rest h = record {
    seen = h.seen;
    there = elim h.ahead [
      | inl v ↦ v
      | inr b ↦ elim (rest b) [ inl none_there ↦ absurd none_there | inr nobody ↦ absurd nobody ]
    ];
  }

  turn :
      (channel : Str) (fuel : ℕ) (g : Gathered S) (w : S.World) (page : List Member)
      → All (λ x. IsOnly S T m x × (behind g.last x ≡ true)) page
      → (behind g.last m ≡ true → Among m page ⊎ BehindPage m page)
      → Pending g
      → ((g' : Gathered S)
          → Pending g'
          → Ensures
              (gather_pages S channel fuel g')
              w
              (λ r _. (f : Gathered S) → r ≡ some f → Found f))
      → Ensures
          (if page_is_empty S page
            then pure (some g)
            else gather_pages S channel fuel (gather_page S page g))
          w
          (λ r _. (f : Gathered S) → r ≡ some f → Found f)
  turn channel fuel g w [] all rest h next =
      Ensures-pure _ (λ f e. subst Found (cc) (last-Found g rest h))
  turn channel fuel g w (p ∷ page) all rest h next = next _ (next-Pending p page g all rest h)

  pages-Found :
      (channel : Str) (fuel : ℕ) (g : Gathered S) (w : S.World)
      → Among m (D.paging.members w)
      → IsUnique w
      → Pending g
      → Ensures (gather_pages S channel fuel g) w (λ r _. (f : Gathered S) → r ≡ some f → Found f)
  unfolding gather_pages
  pages-Found channel zero g w among only h = Ensures-pure _ (λ f e. cc)
  pages-Found channel (suc fuel) g w among only h = reporting-bind S channel _ _ _ w λ page e.
      let same : D.paging.members (S.gateway.get_all_members number_per_page g.last w).1
          ≡ D.paging.members w =
        D.paging.page_frame _ _ w in
      turn channel fuel g _ page
        (map-All _ _ page (λ x k. (only x k.0, k.1)) (D.paging.page_ok _ _ w page e))
        (λ b. Q.page_rest _ _ w page m e (omega arith) among b) h
        (λ g' k.
          pages-Found channel fuel g' _ (subst (Among m) (sym same) among)
            (λ p a. only p (subst (Among p) same a)) k)

  -- If the server's pages are complete, then a member of the server with a positive id of its own
  -- is found with all its roles, however many pages there are.
  pub gather_pages-Found :
      (channel : Str) (fuel : ℕ) (w : S.World) (g : Gathered S)
      → Among m (D.paging.members w)
      → IsUnique w
      → behind [] m ≡ true
      → (gather_pages S channel fuel (start S) w).0 ≡ ok (some g)
      → Found g
  gather_pages-Found channel fuel w g among only later e =
      (pages-Found channel fuel (start S) w among only
          (record { seen = start-Seen S T m; ahead = inr later })).holds
        (some g) e g refl
