-- ===== src/Handler/Sync/Members/Sources.antt =====
-- The roles of the store that grant a user a name, found in a list of roles.
use role_srv.Base.{
  ◌≡◌, ◌∙◌, ap, refl, arith, Bool, true, false, not, ◌&&◌, ◌||◌, List, [], ◌∷◌, Str, str, ◌=?◌,
  =?-eq, =?-refl, is_empty, or_empty, contains, Bool-cases, inl, inr,
}
use role_srv.Redis.{Entry, present, field}
use role_srv.Services.{Services}
use role_srv.Handler.Keys.{role_key}
use role_srv.Handler.Membership.Listing.{lets_in}
use role_srv.Handler.Sync.Members.Gather.{is_off}
use role_srv.Handler.Sync.Members.Granted.{grants_by, grants}

present_of_name :
    (e : Entry) → is_empty (or_empty (field e (str "Name"))) ≡ false → present e ≡ true
present_of_name Entry.absent h = cc
present_of_name (Entry.text s) h = refl
present_of_name (Entry.hash f) h = refl
present_of_name (Entry.members f) h = refl

named_of :
    (off inside : Bool) (name y : Str)
    → (not off && (inside && (not (is_empty y) && name =? y))) ≡ true
    → is_empty name ≡ false
named_of off inside name y h =
    let e : (name =? y) ≡ true = ground arith in ap is_empty (=?-eq name y e) ∙ ground arith

or_true : (b : Bool) → (b || true) ≡ true
or_true true = refl
or_true false = refl

module _ (S : Services) (v : Str → Entry) (user y : Str) where
  pub present_of_grants :
      (n : Str) → grants_by S v user y n ≡ true → present (v (role_key S n)) ≡ true
  present_of_grants n h =
      let read = λ (f : Str). or_empty (field (v (role_key S n)) f) in
      present_of_name (v (role_key S n))
        (named_of (is_off S (read (str "Sync"))) (lets_in S v user n) (read (str "Name")) y h)

  pub grants_in :
      (ns : List Str) (n : Str)
      → contains ns n ≡ true
      → grants_by S v user y n ≡ true
      → grants S v user y ns ≡ true
  unfolding contains
  grants_in [] n h g = cc
  grants_in (a ∷ ns) n h g = elim (Bool-cases (a =? n)) [
    | inl e ↦ rw (=?-eq a n e) (rw g refl)
    | inr e ↦ rw (grants_in ns n (rw e at h) g) (or_true (grants_by S v user y a))
  ]

  pub grants_from :
      (ns : List Str)
      → grants S v user y ns ≡ true
      → (n : Str) × (contains ns n ≡ true) × (grants_by S v user y n ≡ true)
  unfolding contains
  grants_from [] h = cc
  grants_from (a ∷ ns) h = elim (Bool-cases (grants_by S v user y a)) [
    | inl e ↦ (a, rw =?-refl refl, e)
    | inr e ↦
        let (n, within, g) = grants_from ns (rw e at h) in (n, rw within (or_true (a =? n)), g)
  ]

  pub grants_none :
      (ns : List Str) → ((n : Str) → grants_by S v user y n ≡ false) → grants S v user y ns ≡ false
  grants_none [] h = refl
  grants_none (a ∷ ns) h = rw (h a) (grants_none ns h)
