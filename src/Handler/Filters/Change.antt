-- ===== src/Handler/Filters/Change.antt =====
-- GetMembers, AddMembers and RemoveMembers.
use role_srv.Base.{
  ℕ, suc, ◌==◌, lift, attempt-bind, ok-bind, require-bind, is_ok-ne-panic, is_ok-outcome, List, [],
  ◌∷◌, Str, =?_iff, ◌≡◌, ◌≢◌, ap, ◌∙◌, refl, arith, true, ok, not, ◌&&◌, ◌||◌, is_empty, Ensures,
  >>=-Ensures, Ensures-pure, when-ok, is_ok, when-is_ok, contains, Result, panic, Exec, outcome,
}
use role_srv.Proto.{Members}
use role_srv.Redis.{RedisLaws, has}
use role_srv.Services.{Services}
use role_srv.Handler.Keys.{description_key, members_key}
use role_srv.Handler.Filters.{
  get_members, non_empty, add_each, remove_each, add_members, remove_members,
}

contains-non_empty :
    (xs : List Str) (x : Str) → contains (non_empty xs) x ≡ (not (is_empty x) && contains xs x)
unfolding contains
contains-non_empty [] x = ground arith
contains-non_empty (y ∷ ys) x = ground (arith, contains-non_empty ys x, =?_iff y x)

module _ (S : Services) (L : RedisLaws S.redis) where
  open S.redis use {s_add, s_rem}

  get_members-Ensures :
      (f user : Str) (w : S.World)
      → Ensures (get_members S f) w (λ xs _.
        contains xs user ≡ (not (is_empty user) && has (L.view w (members_key S f)) user))
  unfolding get_members
  get_members-Ensures f user w = >>=-Ensures _ _ λ xs e. Ensures-pure _ (
      contains-non_empty xs user
      ∙ ap (λ b. not (is_empty user) && b) (when-ok _ _ _ (L.s_members_ok _ w user) e))

  -- GetMembers lists the members of the filter, and not the empty string.
  pub get_members-lists :
      (f user : Str) (w : S.World) (xs : List Str)
      → (get_members S f w).0 ≡ ok xs
      → contains xs user ≡ (not (is_empty user) && has (L.view w (members_key S f)) user)
  get_members-lists f user w xs h = (get_members-Ensures f user w).holds xs h

  -- Every command of the loop replied.
  abbrev pub AllReply : (Str → Str → Exec S.World ℕ) → Str → List Str → S.World → Type 0
  AllReply command k [] w = Unit
  AllReply command k (x ∷ xs) w =
      (is_ok (command k x w).0 ≡ true) × AllReply command k xs (command k x w).1

module _ (S : Services) where
  open S.redis use {exists, s_add, s_rem}

  pub add_each-cons :
      (k x : Str) (xs : List Str) (last : Result (Unit {0})) (w : S.World)
      → (s_add k x w).0 ≢ panic
      → add_each S k (x ∷ xs) last w ≡ add_each S k xs (outcome (s_add k x w).0) (s_add k x w).1
  unfolding add_each
  add_each-cons k x xs last w n = attempt-bind (s_add k x) _ w n

  pub remove_each-cons :
      (k x : Str) (xs : List Str) (last : Result (Unit {0})) (w : S.World)
      → (s_rem k x w).0 ≢ panic
      → remove_each S k (x ∷ xs) last w
        ≡ remove_each S k xs (outcome (s_rem k x w).0) (s_rem k x w).1
  unfolding remove_each
  remove_each-cons k x xs last w n = attempt-bind (s_rem k x) _ w n

  pub add_each-nil :
      (k : Str) (last : Result (Unit {0})) (w : S.World) → add_each S k [] last w ≡ (last, w)
  unfolding add_each lift
  add_each-nil k last w = refl

  pub remove_each-nil :
      (k : Str) (last : Result (Unit {0})) (w : S.World) → remove_each S k [] last w ≡ (last, w)
  unfolding remove_each lift
  remove_each-nil k last w = refl

module _ (S : Services) (L : RedisLaws S.redis) where
  open S.redis use {exists, s_add, s_rem}

  -- The loop of AddMembers, where every command replies.
  pub add_each-adds :
      (k : Str) (xs : List Str) (w : S.World)
      → AllReply S L s_add k xs w
      → ((add_each S k xs (ok tt) w).0 ≡ ok tt)
        × ((y : Str)
            → has (L.view (add_each S k xs (ok tt) w).1 k) y
              ≡ (contains xs y || has (L.view w k) y))
  unfolding contains
  add_each-adds k [] w h = rw add_each-nil (refl, λ y. refl)
  add_each-adds k (x ∷ xs) w (replied, rest) =
      let (fine, added) = add_each-adds k xs (s_add k x w).1 rest in
      rw (add_each-cons S k x xs (ok tt) w (is_ok-ne-panic _ replied), is_ok-outcome _ replied)
        (fine, λ y. ground (arith, added y, when-is_ok _ _ _ replied (L.s_add_ok k x w y)))

  remove_each-removes :
      (k : Str) (xs : List Str) (w : S.World)
      → AllReply S L s_rem k xs w
      → ((remove_each S k xs (ok tt) w).0 ≡ ok tt)
        × ((y : Str)
            → has (L.view (remove_each S k xs (ok tt) w).1 k) y
              ≡ (not (contains xs y) && has (L.view w k) y))
  unfolding contains
  remove_each-removes k [] w h = rw remove_each-nil (refl, λ y. refl)
  remove_each-removes k (x ∷ xs) w (replied, rest) =
      let (fine, removed) = remove_each-removes k xs (s_rem k x w).1 rest in
      rw (remove_each-cons S k x xs (ok tt) w (is_ok-ne-panic _ replied), is_ok-outcome _ replied)
        (fine, λ y. ground (arith, removed y, when-is_ok _ _ _ replied (L.s_rem_ok k x w y)))

  -- The world in which AddMembers and RemoveMembers begin their loops.
  abbrev pub before_loop : Members → S.World → S.World
  before_loop m w = (exists (description_key S m.filter) w).1

  -- If the filter is there and every command of AddMembers replies, then AddMembers succeeds, and the
  -- members are the old ones and those of the request.
  pub add_members-adds :
      (m : Members) (w : S.World) (n : ℕ)
      → (exists (description_key S m.filter) w).0 ≡ ok (suc n)
      → AllReply S L s_add (members_key S m.filter) m.name (before_loop m w)
      → ((add_members S m w).0 ≡ ok tt)
        × ((y : Str)
            → has (L.view (add_members S m w).1 (members_key S m.filter)) y
              ≡ (contains m.name y || has (L.view w (members_key S m.filter)) y))
  unfolding add_members
  add_members-adds m w n there replied =
      let k = members_key S m.filter in
      let e : add_members S m w ≡ add_each S k m.name (ok tt) (before_loop m w) =
        ok-bind (exists (description_key S m.filter)) _ w (suc n) there
        ∙ require-bind (not (suc n == 0)) _ _ (before_loop m w) (ground arith) in
      let (fine, added) = add_each-adds k m.name (before_loop m w) replied in
      rw e (fine, λ y. added y ∙ ap (λ v. contains m.name y || has v y) (L.exists_frame _ w k))

  -- If the filter is there and every command of RemoveMembers replies, then RemoveMembers succeeds,
  -- and the members are the old ones without those of the request.
  pub remove_members-removes :
      (m : Members) (w : S.World) (n : ℕ)
      → (exists (description_key S m.filter) w).0 ≡ ok (suc n)
      → AllReply S L s_rem (members_key S m.filter) m.name (before_loop m w)
      → ((remove_members S m w).0 ≡ ok tt)
        × ((y : Str)
            → has (L.view (remove_members S m w).1 (members_key S m.filter)) y
              ≡ (not (contains m.name y) && has (L.view w (members_key S m.filter)) y))
  unfolding remove_members
  remove_members-removes m w n there replied =
      let k = members_key S m.filter in
      let e : remove_members S m w ≡ remove_each S k m.name (ok tt) (before_loop m w) =
        ok-bind (exists (description_key S m.filter)) _ w (suc n) there
        ∙ require-bind (not (suc n == 0)) _ _ (before_loop m w) (ground arith) in
      let (fine, removed) = remove_each-removes k m.name (before_loop m w) replied in
      rw e
        (fine, λ y. removed y ∙ ap (λ v. not (contains m.name y) && has v y) (L.exists_frame _ w k))
