-- ===== src/StringSets.antt =====
-- `StringSet` of services-common/sets: its methods, and what it documents of them. `range` lists
-- the elements in the order in which the loop `for s := range set.Set` meets them.
use role_srv.Base.{
  ℕ, ◌≡◌, ◌↔◌, Bool, false, not, ◌&&◌, ◌||◌, List, [], Str, ◌=?◌, contains, is_empty,
}

pub record StringSets : Type 1 where
  pub StringSet : Type 0
  pub new : StringSet
  pub add : Str → StringSet → StringSet
  pub from_slice : List Str → StringSet → StringSet
  pub has : StringSet → Str → Bool
  pub len : StringSet → ℕ
  pub range : StringSet → List Str
  pub difference : StringSet → StringSet → StringSet
  pub intersection : StringSet → StringSet → StringSet

-- The empty string is never an element.
pub record StringSetLaws (S : StringSets) : Type 0 where
  pub has-new : (x : Str) → S.has S.new x ≡ false
  pub has-add :
      (a x : Str) (s : S.StringSet)
      → S.has (S.add a s) x ≡ ((not (is_empty a) && a =? x) || S.has s x)
  pub has-from_slice :
      (l : List Str) (x : Str) (s : S.StringSet)
      → S.has (S.from_slice l s) x ≡ ((not (is_empty x) && contains l x) || S.has s x)
  pub has-difference :
      (s t : S.StringSet) (x : Str) → S.has (S.difference s t) x ≡ (S.has s x && not (S.has t x))
  pub has-intersection :
      (s t : S.StringSet) (x : Str) → S.has (S.intersection s t) x ≡ (S.has s x && S.has t x)
  pub contains-range : (s : S.StringSet) (x : Str) → contains (S.range s) x ≡ S.has s x
  pub len_zero : (s : S.StringSet) → (S.len s ≡ 0) ↔ (S.range s ≡ [])
