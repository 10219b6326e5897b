-- ===== src/Handler/Filters/Listing.antt =====
-- GetFilters.
use role_srv.Base.{
  subst, List, [], ◌∷◌, ◌++◌, Str, str, ◌=?◌, =?-eq, ◌≡◌, refl, ap, ap₂, sym, ◌∙◌, true, ok,
  contains, when-ok, fun_ext, Exec, pure, ◌>>=◌, for_each, Ensures, >>=-Ensures, Ensures-pure,
  Bool-cases, inl, inr, arith, last_part, split,
}
use role_srv.Base.Text.Split.{Lacks}
use role_srv.Proto.{Filter}
use role_srv.Redis.{RedisLaws, text, present, is_plain}
use role_srv.Redis.Listed.{contains-keys, last_part-key_name}
use role_srv.Services.{Services}
use role_srv.Handler.Keys.{description_key}
use role_srv.Handler.Filters.{get_filters, add_filter}
use role_srv.Handler.Filters.Describe.{add_filter-creates}
use mathlib.Core.List.{Mem, mem-cons_self, mem-cons_of_mem}

description_is_plain : is_plain (str ":" ++ str "filter_description:") ≡ true
unfolding str contains ◌=?◌
description_is_plain = refl

text-injective : (a b : Str) → text a ≡ text b → a ≡ b
text-injective a b e = cc

module _ (S : Services) where
  -- One round of the loop of GetFilters.
  abbrev round : Str → Exec S.World Filter
  round k =
      S.redis.get k >>= λ d. pure (record { name = last_part (split k b':'); description = d })

module _ (S : Services) (L : RedisLaws S.redis) where
  round-Ensures :
      (k : Str) (w : S.World)
      → Ensures (round S k) w (λ g w'.
        (g.name ≡ last_part (split k b':'))
        × (text g.description ≡ L.view w k)
        × (L.view w' ≡ L.view w))
  round-Ensures k w =
      >>=-Ensures _ _
        λ d e. Ensures-pure _ (refl, when-ok _ _ _ (L.get_ok k w) e, fun_ext (L.get_frame k w))

  rounds-Ensures :
      (f : Filter) (k : Str) (ks : List Str) (w : S.World)
      → last_part (split k b':') ≡ f.name
      → L.view w k ≡ text f.description
      → contains ks k ≡ true
      → Ensures (for_each (round S) ks) w (λ fs _. Mem f fs)
  unfolding for_each contains
  rounds-Ensures f k [] w name there h = cc
  rounds-Ensures f k (j ∷ js) w name there h = >>=-Ensures _ _ λ g e.
      let (named, described, kept) = (round-Ensures j w).holds g e in
      >>=-Ensures _ _ λ gs more. Ensures-pure _ (elim (Bool-cases (j =? k)) [
        | inl same ↦
            let q = =?-eq j k same in
            let e : f ≡ g =
              ap₂ (λ (n d : Str). record { name = n; description = d })
                (sym (named ∙ ap (λ x. last_part (split x b':')) q ∙ name))
                (text-injective _ _ (sym (described ∙ ap (L.view w) q ∙ there))) in
            subst (λ x. Mem f (x ∷ gs)) e mem-cons_self
        | inr other ↦ mem-cons_of_mem g (
            (rounds-Ensures f k js _ name (ap (λ v. v k) kept ∙ there) (ground (arith, h))).holds gs
              more)
      ])

  get_filters-Lists :
      (f : Filter) (w : S.World)
      → Lacks b':' f.name
      → L.view w (description_key S f.name) ≡ text f.description
      → Ensures (get_filters S) w (λ fs _. Mem f fs)
  unfolding get_filters str
  get_filters-Lists f w plain there = >>=-Ensures _ _ λ ks e.
      let k = description_key S f.name in
      rounds-Ensures f k ks _ (last_part-key_name S.redis L (str "filter_description") f.name plain)
        (L.keys_frame _ w k ∙ there)
        (contains-keys S.redis L (str "filter_description:") f.name w ks description_is_plain e
          ∙ ap present there)

  -- A filter whose name has no colon is listed by GetFilters with its description, if AddFilter has
  -- just made it and GetFilters succeeds.
  pub get_filters-add_filter :
      (f : Filter) (w : S.World) (fs : List Filter)
      → Lacks b':' f.name
      → (add_filter S f w).0 ≡ ok tt
      → (get_filters S (add_filter S f w).1).0 ≡ ok fs
      → Mem f fs
  get_filters-add_filter f w fs plain added listed =
      (get_filters-Lists f _ plain (add_filter-creates S L f w added).stored).holds fs listed
