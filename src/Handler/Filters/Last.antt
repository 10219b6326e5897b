-- ===== src/Handler/Filters/Last.antt =====
-- Which error AddMembers and RemoveMembers of handler/Roles.go return.
use role_srv.Base.{
  err, is_ok, true, is_ok-ne-panic, is_ok-outcome, ℕ, suc, ◌==◌, ok-bind, require-bind, List, [],
  ◌∷◌, ◌++◌, Str, ◌≡◌, ◌≢◌, ap, ◌∙◌, arith, ok, not, Result, panic, Exec, outcome, require, str,
  ◌>>=◌, ◌>>◌,
}
use role_srv.Proto.{Members}
use role_srv.Services.{Services}
use role_srv.Handler.Keys.{description_key, members_key}
use role_srv.Handler.Filters.{add_each, remove_each, add_members, remove_members}
use role_srv.Handler.Filters.Change.{add_each-cons, add_each-nil, remove_each-cons, remove_each-nil}

-- The world after a command for each user.
unfoldable pub after_each : {W : Type 0} → (Str → Exec W ℕ) → List Str → W → W
after_each command [] w = w
after_each command (x ∷ xs) w = after_each command xs (command x w).1

-- None of the commands panics, with `x` the user of the last one.
unfoldable pub NonePanics : {W : Type 0} → (Str → Exec W ℕ) → List Str → Str → W → Type 0
NonePanics command [] x w = (command x w).0 ≢ panic
NonePanics command (y ∷ ys) x w =
    ((command y w).0 ≢ panic) × NonePanics command ys x (command y w).1

-- The reply to the last of the commands.
abbrev pub last_reply : {W : Type 0} → (Str → Exec W ℕ) → List Str → Str → W → Result (Unit {0}) × W
last_reply command xs x w =
    let last = command x (after_each command xs w) in (outcome last.0, last.1)

module _ (S : Services) where
  open S.redis use {exists, s_add, s_rem}

  add_each-last :
      (k : Str) (xs : List Str) (x : Str) (e : Result (Unit {0})) (w : S.World)
      → NonePanics (s_add k) xs x w
      → add_each S k (xs ++ x ∷ []) e w ≡ last_reply (s_add k) xs x w
  unfolding after_each NonePanics
  add_each-last k [] x e w n = add_each-cons S k x [] e w n ∙ add_each-nil S k _ _
  add_each-last k (y ∷ ys) x e w (n, ns) =
      add_each-cons S k y (ys ++ x ∷ []) e w n ∙ add_each-last k ys x _ _ ns

  remove_each-last :
      (k : Str) (xs : List Str) (x : Str) (e : Result (Unit {0})) (w : S.World)
      → NonePanics (s_rem k) xs x w
      → remove_each S k (xs ++ x ∷ []) e w ≡ last_reply (s_rem k) xs x w
  unfolding after_each NonePanics
  remove_each-last k [] x e w n = remove_each-cons S k x [] e w n ∙ remove_each-nil S k _ _
  remove_each-last k (y ∷ ys) x e w (n, ns) =
      remove_each-cons S k y (ys ++ x ∷ []) e w n ∙ remove_each-last k ys x _ _ ns

  -- Behind the test for the filter, where the filter is there.
  behind_exists :
      (m : Members) (w w1 : S.World) (n : ℕ) (body : Exec S.World (Unit {0}))
      → exists (description_key S m.filter) w ≡ (ok (suc n), w1)
      → (do
        n ← exists (description_key S m.filter)
        require (not (n == 0)) (str "Filter `" ++ (m.filter ++ str "` doesn't exists."))
        body)
          w
        ≡ body w1
  behind_exists m w w1 n body there =
      ok-bind (exists (description_key S m.filter)) _ w (suc n) (ap (λ r. r.0) there)
      ∙ require-bind _ _ _ _ (ground arith)
      ∙ ap (λ r. body r.1) there

  add_members_last :
      (m : Members) (xs : List Str) (x : Str) (w w1 : S.World) (n : ℕ)
      → m.name ≡ xs ++ x ∷ []
      → exists (description_key S m.filter) w ≡ (ok (suc n), w1)
      → NonePanics (s_add (members_key S m.filter)) xs x w1
      → add_members S m w ≡ last_reply (s_add (members_key S m.filter)) xs x w1
  unfolding add_members
  add_members_last m xs x w w1 n all there adds =
      let k = members_key S m.filter in
      behind_exists m w w1 n _ there
      ∙ ap (λ ys. add_each S k ys (ok tt) w1) all
      ∙ add_each-last k xs x (ok tt) w1 adds

  remove_members_last :
      (m : Members) (xs : List Str) (x : Str) (w w1 : S.World) (n : ℕ)
      → m.name ≡ xs ++ x ∷ []
      → exists (description_key S m.filter) w ≡ (ok (suc n), w1)
      → NonePanics (s_rem (members_key S m.filter)) xs x w1
      → remove_members S m w ≡ last_reply (s_rem (members_key S m.filter)) xs x w1
  unfolding remove_members
  remove_members_last m xs x w w1 n all there removes =
      let k = members_key S m.filter in
      behind_exists m w w1 n _ there
      ∙ ap (λ ys. remove_each S k ys (ok tt) w1) all
      ∙ remove_each-last k xs x (ok tt) w1 removes

  -- If the filter is there and no command panics, then AddMembers and RemoveMembers run their command
  -- for every user and reply what the last of the commands replied, whatever the others replied: an
  -- earlier error is lost.
  pub members_reply_last :
      (m : Members) (xs : List Str) (x : Str) (w w1 : S.World) (n : ℕ)
      → m.name ≡ xs ++ x ∷ []
      → exists (description_key S m.filter) w ≡ (ok (suc n), w1)
      → NonePanics (s_add (members_key S m.filter)) xs x w1
      → NonePanics (s_rem (members_key S m.filter)) xs x w1
      → (add_members S m w ≡ last_reply (s_add (members_key S m.filter)) xs x w1)
        × (remove_members S m w ≡ last_reply (s_rem (members_key S m.filter)) xs x w1)
  members_reply_last m xs x w w1 n all there adds removes = (
    add_members_last m xs x w w1 n all there adds,
    remove_members_last m xs x w w1 n all there removes,
  )

  -- AddMembers of two users succeeds if its last SADD replies, also where the first one failed.
  add_members-hides_error :
      (m : Members) (x y e : Str) (w : S.World) (n : ℕ)
      → m.name ≡ x ∷ y ∷ []
      → (exists (description_key S m.filter) w).0 ≡ ok (suc n)
      → (s_add (members_key S m.filter) x (exists (description_key S m.filter) w).1).0 ≡ err e
      → is_ok
          (s_add
            (members_key S m.filter)
            y
            (s_add (members_key S m.filter) x (exists (description_key S m.filter) w).1).1).0
        ≡ true
      → (add_members S m w).0 ≡ ok tt
  unfolding NonePanics after_each
  add_members-hides_error m x y e w n two there failed replied =
      let w1 = (exists (description_key S m.filter) w).1 in
      ap (λ r. r.0)
        (add_members_last m (x ∷ []) y w w1 n two (ap (λ r. (r, w1)) there)
          (λ p. cc, is_ok-ne-panic _ replied))
      ∙ is_ok-outcome _ replied
