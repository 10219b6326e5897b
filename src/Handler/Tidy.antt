-- ===== src/Handler/Tidy.antt =====
-- Histories of requests to the store, and what they are to keep: a filter with members is described.
pub mod History
use role_srv.Base.{
  Str, List, [], ◌∷◌, ◌≡◌, ◌≢◌, ◌∙◌, ap, sym, subst, arith, Bool, true, false, ◌=?◌, =?-eq, =?_iff,
  Bool-cases, inl, inr,
}
use role_srv.Proto.{Role, UpdateInfo, Filter, Members, zero_role}
use role_srv.Redis.{RedisLaws, Entry, present, has}
use role_srv.Services.{Services}
use role_srv.Handler.Keys.{role_key, description_key, members_key}
use role_srv.Handler.Keys.Distinct.{
  members_key-injective, description_key-injective, role-ne-description, role-ne-members,
  description-ne-members,
}
use role_srv.Handler.Roles as Roles
use role_srv.Handler.Membership as Membership
use role_srv.Handler.Filters as Filters
use role_srv.Handler.Roles.Add.{add_role-frame}
use role_srv.Handler.Roles.Update.{update_role-frame}
use role_srv.Handler.Roles.Remove.{remove_role-frame}
use role_srv.Handler.Filters.Describe.{MembersReply, filter_frame}
use role_srv.Handler.Filters.Refused.{
  add_filter_refused, remove_filter_refused, add_members_refused, remove_members_refused,
}
use role_srv.Handler.Reads.{reads_frame}
use role_srv.Handler.Writes.{members_frame}

-- The requests that the store answers.
pub data Request : Type 0 where
  add_role : Role → Request
  update_role : UpdateInfo → Request
  remove_role : Role → Request
  get_role : Role → Request
  get_roles : Request
  get_role_membership : Str → Request
  list_user_roles : Str → Request
  add_filter : Filter → Request
  remove_filter : Filter → Request
  get_filters : Request
  add_members : Members → Request
  remove_members : Members → Request
  get_members : Str → Request

module _ (S : Services) where
  -- The world behind a request, whatever the reply.
  abbrev pub serve : Request → S.World → S.World
  serve (add_role r) w = (Roles.add_role S r w).1
  serve (update_role u) w = (Roles.update_role S u w).1
  serve (remove_role r) w = (Roles.remove_role S r w).1
  serve (get_role r) w = (Roles.get_role S r w).1
  serve get_roles w = (Roles.get_roles S w).1
  serve (get_role_membership r) w = (Membership.get_role_membership S r w).1
  serve (list_user_roles u) w = (Membership.list_user_roles S u w).1
  serve (add_filter f) w = (Filters.add_filter S f w).1
  serve (remove_filter f) w = (Filters.remove_filter S f w).1
  serve get_filters w = (Filters.get_filters S w).1
  serve (add_members m) w = (Filters.add_members S m w).1
  serve (remove_members m) w = (Filters.remove_members S m w).1
  serve (get_members f) w = (Filters.get_members S f w).1

  abbrev pub serve_all : List Request → S.World → S.World
  serve_all [] w = w
  serve_all (q ∷ qs) w = serve_all qs (serve q w)

module _ (S : Services) (L : RedisLaws S.redis) where
  -- The SMEMBERS of RemoveFilter replies.
  abbrev pub Replies : Request → S.World → Type 0
  Replies (remove_filter f) w = MembersReply S L f w
  Replies _ w = Unit

  abbrev pub AllReply : List Request → S.World → Type 0
  AllReply [] w = Unit
  AllReply (q ∷ qs) w = Replies q w × AllReply qs (serve S q w)

  -- A filter with a member is described.
  pub record IsTidy (w : S.World) : Type 0 where
    pub described :
        (f user : Str)
        → has (L.view w (members_key S f)) user ≡ true
        → present (L.view w (description_key S f)) ≡ true

  module _ (w v : S.World) where
    abbrev pub SameMembers : Str → Type 0
    SameMembers f = L.view v (members_key S f) ≡ L.view w (members_key S f)

    abbrev pub SameDescription : Str → Type 0
    SameDescription f = L.view v (description_key S f) ≡ L.view w (description_key S f)

    described_before :
        (f user : Str)
        → SameMembers f
        → IsTidy w
        → has (L.view v (members_key S f)) user ≡ true
        → present (L.view w (description_key S f)) ≡ true
    described_before f user same h there =
        h.described f user (sym (ap (λ e. has e user) same) ∙ there)

    pub unchanged-IsTidy :
        ((f : Str) → SameMembers f) → ((f : Str) → SameDescription f) → IsTidy w → IsTidy v
    unchanged-IsTidy mem desc h = record {
      described = λ f user there. ap present (desc f) ∙ described_before f user (mem f) h there;
    }

    -- A change of one description.
    pub description-IsTidy :
        (g : Str)
        → ((f : Str) → SameMembers f)
        → ((f : Str) → g ≢ f → SameDescription f)
        → ((user : Str) → has (L.view w (members_key S g)) user ≡ true → SameDescription g)
        → IsTidy w
        → IsTidy v
    description-IsTidy g mem other refused h = record {
      described = λ f user there.
          let before = described_before f user (mem f) h there in
          elim (Bool-cases (g =? f)) [
            | inl e ↦
                let q = =?-eq g f e in
                let member : has (L.view w (members_key S g)) user ≡ true =
                  ap (λ k. has (L.view w (members_key S k)) user) q
                  ∙ sym (ap (λ e. has e user) (mem f))
                  ∙ there in
                ap (λ k. present (L.view v (description_key S k))) (sym q)
                ∙ ap present (refused user member)
                ∙ ap (λ k. present (L.view w (description_key S k))) q
                ∙ before
            | inr e ↦ ap present (other f (λ q. ground (arith, =?_iff g f))) ∙ before
          ];
    }

    -- A change of one filter's members.
    pub members-IsTidy :
        (g : Str)
        → ((f : Str) → SameDescription f)
        → ((f : Str) → g ≢ f → SameMembers f)
        → (present (L.view w (description_key S g)) ≡ false → SameMembers g)
        → IsTidy w
        → IsTidy v
    members-IsTidy g desc other refused h = record {
      described = λ f user there. ap present (desc f) ∙ elim (Bool-cases (g =? f)) [
        | inl e ↦
            let q = =?-eq g f e in
            elim (Bool-cases (present (L.view w (description_key S g)))) [
              | inl p ↦ ap (λ k. present (L.view w (description_key S k))) (sym q) ∙ p
              | inr p ↦ described_before f user (subst SameMembers q (refused p)) h there
            ]
        | inr e ↦ described_before f user (other f (λ q. ground (arith, =?_iff g f))) h there
      ];
    }
