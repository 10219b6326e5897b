-- ===== src/Handler/Filters/Refused.antt =====
-- Requests on filters that a check refuses: they change nothing.
use role_srv.Base.{
  Str, ◌≡◌, ◌∙◌, ap, refl, arith, true, false, attempt, attempt-world, >>=-at, require-at, when-ok,
}
use role_srv.Proto.{Filter, Members}
use role_srv.Redis.{RedisLaws, present, has}
use role_srv.Services.{Services}
use role_srv.Handler.Keys.{description_key, members_key}
use role_srv.Handler.Filters.{add_filter, remove_filter, add_members, remove_members}
use role_srv.Handler.Filters.Describe.{MembersReply, nothing_read}

module _ (S : Services) (L : RedisLaws S.redis) (w : S.World) (j : Str) where
  open S.redis use {exists, s_members}

  -- Key `j` holds what it held.
  abbrev Kept : S.World → Type 0
  Kept v = L.view v j ≡ L.view w j

  -- AddFilter for a filter that is described.
  pub add_filter_refused :
      (f : Filter)
      → present (L.view w (description_key S f.name)) ≡ true
      → L.view (add_filter S f w).1 j ≡ L.view w j
  unfolding add_filter
  add_filter_refused f there =
      let k = description_key S f.name in
      require-at Kept _ _ _ w refl λ _. require-at Kept _ _ _ w refl λ _.
        >>=-at Kept (exists k) _ w (L.exists_frame k w j) λ n e.
          require-at Kept _ _ _ _ (L.exists_frame k w j)
            λ free. absurd (ground (arith, when-ok _ _ _ (L.exists_ok k w) e))

  -- RemoveFilter for a filter with a member, if the question for the members is answered.
  pub remove_filter_refused :
      (f : Filter) (user : Str)
      → MembersReply S L f w
      → has (L.view w (members_key S f.name)) user ≡ true
      → L.view (remove_filter S f w).1 j ≡ L.view w j
  unfolding remove_filter
  remove_filter_refused f user replied there =
      let k = description_key S f.name in
      let m = members_key S f.name in
      let ask = s_members m in
      let w1 = (exists k w).1 in
      let kept : L.view (attempt ask w1).1 j ≡ L.view w j =
        ap (λ v. L.view v j) (attempt-world ask w1)
        ∙ L.s_members_frame m w1 j
        ∙ L.exists_frame k w j in
      >>=-at Kept (exists k) _ w (L.exists_frame k w j) λ n e.
        require-at Kept _ _ _ w1 (L.exists_frame k w j) λ _.
          >>=-at Kept (attempt ask) _ w1 kept λ r read. require-at Kept _ _ _ _ kept λ nothing.
            let none_there =
              nothing_read ask w1 r user _ read nothing replied (L.s_members_ok m w1 user) in
            absurd (ground (arith, none_there, ap (λ v. has v user) (L.exists_frame k w m)))

  -- AddMembers and RemoveMembers for a filter that is not described.
  pub add_members_refused :
      (m : Members)
      → present (L.view w (description_key S m.filter)) ≡ false
      → L.view (add_members S m w).1 j ≡ L.view w j
  unfolding add_members
  add_members_refused m missing =
      let k = description_key S m.filter in
      >>=-at Kept (exists k) _ w (L.exists_frame k w j) λ n e.
        require-at Kept _ _ _ _ (L.exists_frame k w j)
          λ there. absurd (ground (arith, when-ok _ _ _ (L.exists_ok k w) e))

  pub remove_members_refused :
      (m : Members)
      → present (L.view w (description_key S m.filter)) ≡ false
      → L.view (remove_members S m w).1 j ≡ L.view w j
  unfolding remove_members
  remove_members_refused m missing =
      let k = description_key S m.filter in
      >>=-at Kept (exists k) _ w (L.exists_frame k w j) λ n e.
        require-at Kept _ _ _ _ (L.exists_frame k w j)
          λ there. absurd (ground (arith, when-ok _ _ _ (L.exists_ok k w) e))
