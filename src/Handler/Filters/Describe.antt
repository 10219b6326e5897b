-- ===== src/Handler/Filters/Describe.antt =====
-- AddFilter and RemoveFilter.
use role_srv.Base.{
  Str, ◌≡◌, ◌≢◌, ap, ◌∙◌, refl, arith, true, false, ok, err, is_empty, Ensures, >>=-Ensures,
  require-Ensures, Ensures-pure, Keeps, when-ok, is_ok, attempt, contains, List, [], ◌∷◌, Result,
  panic, Exec, attempt_reply, WhenOk, Bool, sym, ℕ, suc, ◌==◌, not, =?-refl, pure, ok-bind,
  require-bind, attempt-bind, is_ok-ne-panic,
}
use role_srv.Proto.{Filter}
use role_srv.Redis.{RedisLaws, present, absent, text, has, Entry}
use role_srv.Redis.Frames.{Holds, redis_frames}
use role_srv.Services.{Services}
use role_srv.Handler.Keys.{description_key, members_key}
use role_srv.Handler.Filters.{add_filter, remove_filter, slice_of, is_nil}

nothing_read_of :
    {W : Type 0} (x : Result (List Str)) (w : W) (r : Result (List Str)) (user : Str) (b : Bool)
    → (attempt_reply x w).0 ≡ ok r
    → is_nil (slice_of r) ≡ true
    → is_ok x ≡ true
    → WhenOk x (λ xs. contains xs user) b
    → b ≡ false
unfolding contains
nothing_read_of (ok []) w r user b e nothing replied h = sym h
nothing_read_of (ok (x ∷ xs)) w r user b e nothing replied h =
    let q : r ≡ ok (x ∷ xs) = cc in
    ground (arith, ap (λ (y : Result (List Str)). is_nil (slice_of y)) q)
nothing_read_of (err y) w r user b e nothing replied h = cc
nothing_read_of panic w r user b e nothing replied h = cc

-- An empty reply of SMEMBERS, behind `attempt`, says that there is no member.
pub nothing_read :
    {W : Type 0} (m : Exec W (List Str)) (w : W) (r : Result (List Str)) (user : Str) (b : Bool)
    → (attempt m w).0 ≡ ok r
    → is_nil (slice_of r) ≡ true
    → is_ok (m w).0 ≡ true
    → WhenOk (m w).0 (λ xs. contains xs user) b
    → b ≡ false
unfolding attempt
nothing_read m w r user b e nothing replied h =
    nothing_read_of (m w).0 (m w).1 r user b e nothing replied h

-- A reply without members is empty.
nil_of :
    (xs : List Str) → ((user : Str) → contains xs user ≡ false) → is_nil (slice_of (ok xs)) ≡ true
unfolding contains
nil_of [] h = refl
nil_of (x ∷ xs) h = ground (arith, h x, =?-refl x)

module _ (S : Services) (L : RedisLaws S.redis) where
  open S.redis use {exists, s_members, del}

  pub record Described (f : Filter) (w w' : S.World) : Type 0 where
    pub name_given : is_empty f.name ≡ false
    pub description_given : is_empty f.description ≡ false
    pub fresh : present (L.view w (description_key S f.name)) ≡ false
    pub stored : L.view w' (description_key S f.name) ≡ text f.description

  add_filter-Described :
      (f : Filter) (w : S.World) → Ensures (add_filter S f) w (λ _ w'. Described f w w')
  unfolding add_filter
  add_filter-Described f w =
      let k = description_key S f.name in
      require-Ensures _ _ _ λ a. require-Ensures _ _ _ λ b. >>=-Ensures _ _ λ n e.
        require-Ensures _ _ _ λ free. >>=-Ensures _ _ λ _ done. Ensures-pure _ (record {
          name_given = ground arith;
          description_given = ground arith;
          fresh = ground (arith, when-ok _ _ _ (L.exists_ok k w) e);
          stored = when-ok _ _ _ (L.set_ok k f.description _) done;
        })

  -- AddFilter succeeds only with a name and a description and for a filter that was not there. Then
  -- the filter's key holds the description.
  pub add_filter-creates :
      (f : Filter) (w : S.World) → (add_filter S f w).0 ≡ ok tt → Described f w (add_filter S f w).1
  add_filter-creates f w h = (add_filter-Described f w).holds tt h

  add_filter-Keeps :
      (j : Str) (e : Entry) (f : Filter)
      → j ≢ description_key S f.name
      → Keeps (Holds S.redis L j e) (add_filter S f)
  unfolding add_filter
  add_filter-Keeps j e f n = search redis_frames depth 12

  remove_filter-Keeps :
      (j : Str) (e : Entry) (f : Filter)
      → j ≢ description_key S f.name
      → Keeps (Holds S.redis L j e) (remove_filter S f)
  unfolding remove_filter
  remove_filter-Keeps j e f n = search redis_frames depth 12

  -- Whatever they reply, AddFilter and RemoveFilter change no key but that of the description.
  pub filter_frame :
      (f : Filter) (w : S.World) (j : Str)
      → j ≢ description_key S f.name
      → (L.view (add_filter S f w).1 j ≡ L.view w j)
        × (L.view (remove_filter S f w).1 j ≡ L.view w j)
  filter_frame f w j n = (
    ((add_filter-Keeps j (L.view w j) f n).at w (record { at = refl })).at,
    ((remove_filter-Keeps j (L.view w j) f n).at w (record { at = refl })).at,
  )

  -- The world in which RemoveFilter asks for the members.
  abbrev pub before_members : Filter → S.World → S.World
  before_members f w = (exists (description_key S f.name) w).1

  -- The SMEMBERS of RemoveFilter replies.
  abbrev pub MembersReply : Filter → S.World → Type 0
  MembersReply f w = is_ok (s_members (members_key S f.name) (before_members f w)).0 ≡ true

  pub record Undescribed (f : Filter) (w w' : S.World) : Type 0 where
    pub was_there : present (L.view w (description_key S f.name)) ≡ true
    pub gone : L.view w' (description_key S f.name) ≡ absent
    pub was_empty : (user : Str) → has (L.view w (members_key S f.name)) user ≡ false

  remove_filter-Undescribed :
      (f : Filter) (w : S.World)
      → MembersReply f w
      → Ensures (remove_filter S f) w (λ _ w'. Undescribed f w w')
  unfolding remove_filter
  remove_filter-Undescribed f w replied =
      let k = description_key S f.name in
      let m = members_key S f.name in
      >>=-Ensures _ _ λ n e. require-Ensures _ _ _ λ there. >>=-Ensures _ _ λ r read.
        require-Ensures _ _ _ λ nothing. >>=-Ensures _ _ λ _ gone. Ensures-pure _ (record {
          was_there = ground (arith, when-ok _ _ _ (L.exists_ok k w) e);
          gone = when-ok _ _ _ (L.del_ok k _) gone;
          was_empty = λ user.
              sym (ap (λ v. has v user) (L.exists_frame k w m))
              ∙ nothing_read _ _ r user _ read nothing replied (L.s_members_ok m _ user);
        })

  -- If its SMEMBERS replies, a RemoveFilter that succeeds removes the description of a filter that
  -- was there and had no members.
  pub remove_filter-removes :
      (f : Filter) (w : S.World)
      → MembersReply f w
      → (remove_filter S f w).0 ≡ ok tt
      → Undescribed f w (remove_filter S f w).1
  remove_filter-removes f w p h = (remove_filter-Undescribed f w p).holds tt h

  -- The commands of a RemoveFilter of a filter that is there reply.
  pub record Answered (f : Filter) (w : S.World) : Type 0 where
    pub there : ℕ
    pub members : List Str
    pub keys : ℕ
    pub found : (exists (description_key S f.name) w).0 ≡ ok (suc there)
    pub read : (s_members (members_key S f.name) (before_members f w)).0 ≡ ok members
    pub dropped :
        (del (description_key S f.name) (s_members (members_key S f.name) (before_members f w)).1).0
        ≡ ok keys

  -- If its commands reply, a RemoveFilter of a filter that is there and has no members succeeds.
  pub remove_filter-succeeds :
      (f : Filter) (w : S.World)
      → Answered f w
      → ((user : Str) → has (L.view w (members_key S f.name)) user ≡ false)
      → (remove_filter S f w).0 ≡ ok tt
  unfolding remove_filter pure
  remove_filter-succeeds f w a empty =
      let k = description_key S f.name in
      let m = members_key S f.name in
      let w1 = before_members f w in
      let nobody = λ (user : Str).
        when-ok _ _ _ (L.s_members_ok m w1 user) a.read
        ∙ ap (λ v. has v user) (L.exists_frame k w m)
        ∙ empty user in
      let nothing : is_nil (slice_of (s_members m w1).0) ≡ true =
        rw a.read (nil_of a.members nobody) in
      ap (λ p. p.0)
        (ok-bind (exists k) _ w (suc a.there) a.found
          ∙ require-bind (not (suc a.there == 0)) _ _ _ (ground arith)
          ∙ attempt-bind (s_members m) _ w1 (is_ok-ne-panic _ (ap is_ok a.read))
          ∙ require-bind (is_nil (slice_of (s_members m w1).0)) _ _ _ nothing
          ∙ ok-bind (del k) _ _ a.keys a.dropped)
