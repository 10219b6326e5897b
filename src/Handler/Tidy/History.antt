-- ===== src/Handler/Tidy/History.antt =====
-- What every history of requests keeps.
use role_srv.Base.{Str, List, [], ◌∷◌, ◌≡◌, ◌≢◌, sym}
use role_srv.Proto.{zero_role}
use role_srv.Redis.{RedisLaws}
use role_srv.Services.{Services}
use role_srv.Handler.Keys.{role_key, description_key, members_key}
use role_srv.Handler.Keys.Distinct.{
  members_key-injective, description_key-injective, role-ne-description, role-ne-members,
  description-ne-members,
}
use role_srv.Handler.Roles.Add.{add_role-frame}
use role_srv.Handler.Roles.Update.{update_role-frame}
use role_srv.Handler.Roles.Remove.{remove_role-frame}
use role_srv.Handler.Filters.Describe.{filter_frame}
use role_srv.Handler.Filters.Refused.{
  add_filter_refused, remove_filter_refused, add_members_refused, remove_members_refused,
}
use role_srv.Handler.Reads.{reads_frame}
use role_srv.Handler.Writes.{members_frame}
use role_srv.Handler.Tidy.{
  Request, add_role, update_role, remove_role, get_role, get_roles, get_role_membership,
  list_user_roles, add_filter, remove_filter, get_filters, add_members, remove_members, get_members,
  serve, serve_all, Replies, AllReply, IsTidy, unchanged-IsTidy, description-IsTidy, members-IsTidy,
}

module _ (S : Services) (L : RedisLaws S.redis) where
  reads-IsTidy :
      (w v : S.World) → ((j : Str) → L.view v j ≡ L.view w j) → IsTidy S L w → IsTidy S L v
  reads-IsTidy w v h =
      unchanged-IsTidy S L w v (λ f. h (members_key S f)) (λ f. h (description_key S f))

  other_members : (f g : Str) → g ≢ f → members_key S f ≢ members_key S g
  other_members f g n e = n (sym (members_key-injective S L f g e))

  other_description : (f g : Str) → g ≢ f → description_key S f ≢ description_key S g
  other_description f g n e = n (sym (description_key-injective S L f g e))

  no_role_members : (f r : Str) → members_key S f ≢ role_key S r
  no_role_members f r e = role-ne-members S L r f (sym e)

  no_role_description : (f r : Str) → description_key S f ≢ role_key S r
  no_role_description f r e = role-ne-description S L r f (sym e)

  no_description : (f g : Str) → members_key S f ≢ description_key S g
  no_description f g e = description-ne-members S L g f (sym e)

  serve-IsTidy :
      (q : Request) (w : S.World) → Replies S L q w → IsTidy S L w → IsTidy S L (serve S q w)
  serve-IsTidy (add_role r) w p =
      unchanged-IsTidy S L w _ (λ f. add_role-frame S L r w _ (no_role_members f r.short_name))
        (λ f. add_role-frame S L r w _ (no_role_description f r.short_name))
  serve-IsTidy (update_role u) w p =
      unchanged-IsTidy S L w _ (λ f. update_role-frame S L u w _ (no_role_members f u.name))
        (λ f. update_role-frame S L u w _ (no_role_description f u.name))
  serve-IsTidy (remove_role r) w p =
      unchanged-IsTidy S L w _ (λ f. remove_role-frame S L r w _ (no_role_members f r.short_name))
        (λ f. remove_role-frame S L r w _ (no_role_description f r.short_name))
  serve-IsTidy (get_role r) w p = reads-IsTidy w _ (λ j. (reads_frame S L r [] w j).0)
  serve-IsTidy get_roles w p = reads-IsTidy w _ (λ j. (reads_frame S L zero_role [] w j).1)
  serve-IsTidy (get_role_membership r) w p =
      reads-IsTidy w _ (λ j. (reads_frame S L zero_role r w j).2)
  serve-IsTidy (list_user_roles u) w p = reads-IsTidy w _ (λ j. (reads_frame S L zero_role u w j).3)
  serve-IsTidy (add_filter f) w p = λ h.
      description-IsTidy S L w _ f.name (λ g. (filter_frame S L f w _ (no_description g f.name)).0)
        (λ g n. (filter_frame S L f w _ (other_description g f.name n)).0)
        (λ user m. add_filter_refused S L w _ f (h.described f.name user m)) h
  serve-IsTidy (remove_filter f) w p =
      description-IsTidy S L w _ f.name (λ g. (filter_frame S L f w _ (no_description g f.name)).1)
        (λ g n. (filter_frame S L f w _ (other_description g f.name n)).1)
        (λ user m. remove_filter_refused S L w _ f user p m)
  serve-IsTidy get_filters w p = reads-IsTidy w _ (λ j. (reads_frame S L zero_role [] w j).4)
  serve-IsTidy (add_members m) w p =
      members-IsTidy S L w _ m.filter
        (λ f. (members_frame S L m w _ (description-ne-members S L f m.filter)).0)
        (λ f n. (members_frame S L m w _ (other_members f m.filter n)).0)
        (add_members_refused S L w _ m)
  serve-IsTidy (remove_members m) w p =
      members-IsTidy S L w _ m.filter
        (λ f. (members_frame S L m w _ (description-ne-members S L f m.filter)).1)
        (λ f n. (members_frame S L m w _ (other_members f m.filter n)).1)
        (remove_members_refused S L w _ m)
  serve-IsTidy (get_members f) w p = reads-IsTidy w _ (λ j. (reads_frame S L zero_role f w j).5)

  -- Every history of requests, refused and failed ones included, keeps the store tidy: a filter with
  -- a member is described. The SMEMBERS of each RemoveFilter must reply.
  pub serve_all-IsTidy :
      (qs : List Request) (w : S.World)
      → AllReply S L qs w
      → IsTidy S L w
      → IsTidy S L (serve_all S qs w)
  serve_all-IsTidy [] w p h = h
  serve_all-IsTidy (q ∷ qs) w p h = serve_all-IsTidy qs _ p.1 (serve-IsTidy q w p.0 h)
