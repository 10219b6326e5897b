-- ===== src/Handler/Roles/Book.antt =====
-- The roles of the store as a book, a map from names to fields: what AddRole, UpdateRole and
-- RemoveRole are, seen from outside.
use role_srv.Base.{
  ◌≡◌, ◌≢◌, ◌∙◌, refl, ap, fun_ext, arith, true, false, List, [], ◌∷◌, Str, ◌=?◌, =?-eq, =?_iff,
  =?-refl, Option, none, some, contains, lookup, if◌then◌else◌, Exec, ok, pure, ◌>>◌, Ensures,
  >>=-Ensures, Ensures-pure, Bool-cases, inl, inr,
}
use role_srv.Proto.{Role, UpdateInfo}
use role_srv.Redis.{RedisLaws, Entry, absent, text, hash, members, present, field}
use role_srv.Services.{Services}
use role_srv.Handler.Keys.{role_key, role_keys, role_types}
use role_srv.Handler.Keys.Distinct.{role_key-injective}
use role_srv.Handler.Roles.{add_role, update_role, remove_role}
use role_srv.Handler.Roles.Add.{add_role-creates, add_role-frame}
use role_srv.Handler.Roles.Update.{WriteReplies, update_role-sets, update_role-frame}
use role_srv.Handler.Roles.Remove.{remove_role-removes, remove_role-frame}

-- A role's fields by name, for each role that is there.
abbrev pub Book : Type 0
Book = Str → Option (Str → Option Str)

abbrev pub page_of : Entry → Option (Str → Option Str)
page_of absent = none
page_of e = some (field e)

abbrev pub written : Str → Option (Str → Option Str) → Book → Book
written n p b m = if n =? m then p else b m

abbrev pub set_field : Str → Str → (Str → Option Str) → Str → Option Str
set_field key value p g = if key =? g then some value else p g

pub data Op : Type 0 where
  add : Role → Op
  set : UpdateInfo → Op
  remove : Role → Op

-- The book before and after an operation that succeeds.
pub data Turns (S : Services) (b b' : Book) : Op → Type 0 where
  added :
      (r : Role)
      → b r.short_name ≡ none
      → contains role_types r.type ≡ true
      → b' ≡ written r.short_name (some (λ f. lookup f (S.structs_map r))) b
      → Turns S b b' (add r)
  updated :
      (u : UpdateInfo) (p : Str → Option Str)
      → b u.name ≡ some p
      → contains role_keys u.key ≡ true
      → b' ≡ written u.name (some (set_field u.key u.value p)) b
      → Turns S b b' (set u)
  removed :
      (r : Role) (p : Str → Option Str)
      → b r.short_name ≡ some p
      → b' ≡ written r.short_name none b
      → Turns S b b' (remove r)

present-page_of :
    (e : Entry) (p : Str → Option Str)
    → present e ≡ true
    → ((f : Str) → field e f ≡ p f)
    → page_of e ≡ some p
present-page_of absent p h k = cc
present-page_of (text s) p h k = ap some (fun_ext k)
present-page_of (hash m) p h k = ap some (fun_ext k)
present-page_of (members m) p h k = ap some (fun_ext k)

field-present : (e : Entry) (f v : Str) → field e f ≡ some v → present e ≡ true
field-present absent f v h = cc
field-present (text s) f v h = refl
field-present (hash m) f v h = refl
field-present (members m) f v h = refl

absent-page_of : (e : Entry) → present e ≡ false → page_of e ≡ none
absent-page_of absent h = refl
absent-page_of (text s) h = cc
absent-page_of (hash m) h = cc
absent-page_of (members m) h = cc

module _ (S : Services) (L : RedisLaws S.redis) where
  abbrev pub book : S.World → Book
  book w n = page_of (L.view w (role_key S n))

  -- Only the page of one name changes.
  written_lem :
      (n : Str) (p : Option (Str → Option Str)) (w w' : S.World)
      → book w' n ≡ p
      → ((j : Str) → j ≢ role_key S n → L.view w' j ≡ L.view w j)
      → book w' ≡ written n p (book w)
  written_lem n p w w' here frame = fun_ext λ m. elim (Bool-cases (n =? m)) [
    | inl e ↦ rw (e, ← =?-eq n m e) here
    | inr e ↦ rw e (
        ap page_of (
          frame (role_key S m)
            λ q. let same : m ≡ n = role_key-injective S L m n q in ground (arith, =?_iff n m)))
  ]

  -- The handlers.
  unfoldable pub apply : Op → Exec S.World (Unit {0})
  apply (add r) = add_role S r
  apply (set u) = update_role S u
  apply (remove r) = remove_role S r

  -- The HSET of an UpdateRole replies.
  abbrev pub Replies : Op → S.World → Type 0
  Replies (add r) w = Unit
  Replies (set u) w = WriteReplies S L u w
  Replies (remove r) w = Unit

  apply-Turns :
      (o : Op) (w : S.World)
      → Replies o w
      → (apply o w).0 ≡ ok tt
      → Turns S (book w) (book (apply o w).1) o
  unfolding apply
  apply-Turns (add r) w a h =
      let d = add_role-creates S L r w h in
      added r (absent-page_of _ d.fresh) d.valid.typed (
        written_lem r.short_name _ w _ (present-page_of _ _ d.there d.stored)
          (add_role-frame S L r w))
  apply-Turns (set u) w a h =
      let d = update_role-sets S L u w a h in
      let k = role_key S u.name in
      let there : present (L.view (update_role S u w).1 k) ≡ true =
        field-present _ u.key u.value (d.written u.key ∙ rw (=?-refl u.key)) in
      updated u (field (L.view w k)) (present-page_of _ _ d.there (λ f. refl)) d.known
        (written_lem u.name _ w _ (present-page_of _ _ there d.written) (update_role-frame S L u w))
  apply-Turns (remove r) w a h =
      let d = remove_role-removes S L r w h in
      removed r (field (L.view w (role_key S r.short_name)))
        (present-page_of _ _ d.was_there (λ f. refl))
        (written_lem r.short_name none w _ (ap page_of d.gone) (remove_role-frame S L r w))

  -- The operations one after the other, up to the first error.
  unfoldable pub apply_all : List Op → Exec S.World (Unit {0})
  apply_all [] = pure tt
  apply_all (o ∷ os) = apply o >> apply_all os

  abbrev pub AllReply : List Op → S.World → Type 0
  AllReply [] w = Unit
  AllReply (o ∷ os) w = Replies o w × AllReply os (apply o w).1

  -- A history of the book.
  pub data History : Book → List Op → Book → Type 0 where
    done : (b : Book) → History b [] b
    turn :
        (b c d : Book) (o : Op) (os : List Op)
        → Turns S b c o
        → History c os d
        → History b (o ∷ os) d

  apply_all-History :
      (os : List Op) (w : S.World)
      → AllReply os w
      → Ensures (apply_all os) w (λ _ w'. History (book w) os (book w'))
  unfolding apply_all
  apply_all-History [] w a = Ensures-pure _ (done _)
  apply_all-History (o ∷ os) w a = >>=-Ensures _ _ λ u e. record {
    holds = λ v f. turn _ _ _ o os (apply-Turns o w a.0 e) ((apply_all-History os _ a.1).holds v f);
  }

  -- Any sequence of AddRole, UpdateRole and RemoveRole that succeeds, each HSET with a reply, is a
  -- history of the book: a role is added under a free name with the fields of the request, a field
  -- of a role that is there is set, a role that is there is removed, and nothing else changes.
  pub apply_all-refines :
      (os : List Op) (w : S.World)
      → AllReply os w
      → (apply_all os w).0 ≡ ok tt
      → History (book w) os (book (apply_all os w).1)
  apply_all-refines os w a h = (apply_all-History os w a).holds tt h
