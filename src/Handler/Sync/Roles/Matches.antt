-- ===== src/Handler/Sync/Roles/Matches.antt =====
-- matchDiscordError of handler/Roles.go: the pattern `^The role '.*' already exists$`.
use role_srv.Base.{
  ℕ, ap₂, =?-refl, true, false, not, ◌&&◌, ◌||◌, [], ◌∷◌, ◌++◌, Str, str, ◌=?◌, ◌≡◌, ◌↔◌, ap, sym,
  ◌∙◌, refl, arith, =?-eq, =?_iff, Bool-cases, inl, inr, Option, none, some,
}
use role_srv.Handler.Sync.Roles.{ends_with, has_newline, strip_prefix, match_discord_error}

ends_with-split : (p s : Str) → ends_with p s ≡ true → (q : Str) × (s ≡ q ++ p)
ends_with-split p [] h = ([], sym (=?-eq p [] h))
ends_with-split p (c ∷ s) h = elim (Bool-cases (p =? (c ∷ s))) [
  | inl same ↦ ([], sym (=?-eq p (c ∷ s) same))
  | inr other ↦ let (q, e) = ends_with-split p s (ground arith) in (c ∷ q, ap (λ x. c ∷ x) e)
]

ends_with-++ : (q p : Str) → ends_with p (q ++ p) ≡ true
ends_with-++ [] [] = =?-refl []
ends_with-++ [] (c ∷ p) = ground (arith, =?-refl (c ∷ p))
ends_with-++ (c ∷ q) p = ground (arith, ends_with-++ q p)

strip_prefix-++ : (p s : Str) → strip_prefix p (p ++ s) ≡ some s
strip_prefix-++ [] s = refl
strip_prefix-++ (c ∷ p) s = ground (arith, strip_prefix-++ p s, =?_iff (c ∷ []) (c ∷ []))

head_eq : (c d : ℕ) → ((c ∷ []) =? (d ∷ [])) ≡ true → c ≡ d
unfolding ◌=?◌
head_eq c d h = ground arith

strip_prefix_inv : (p e s : Str) → strip_prefix p e ≡ some s → e ≡ p ++ s
strip_prefix_inv [] e s h = cc
strip_prefix_inv (c ∷ p) [] s h = cc
strip_prefix_inv (c ∷ p) (d ∷ e) s h = elim (Bool-cases ((c ∷ []) =? (d ∷ []))) [
  | inl same ↦ ap₂ (λ x xs. x ∷ xs) (sym (head_eq c d same)) (strip_prefix_inv p e s (rw same at h))
  | inr other ↦ ground (arith, h)
]

has_newline-++ : (a b : Str) → has_newline (a ++ b) ≡ (has_newline a || has_newline b)
has_newline-++ [] b = refl
has_newline-++ (c ∷ a) b = ground (arith, has_newline-++ a b)

abbrev opening : Str
opening = str "The role '"

abbrev closing : Str
closing = str "' already exists"

closing_is_one_line : has_newline closing ≡ false
unfolding str ◌=?◌
closing_is_one_line = refl

-- The text is `The role 'NAME' already exists`, with a name in one line.
abbrev pub SaysExists : Str → Type 0
SaysExists e = (name : Str) × (e ≡ opening ++ (name ++ closing)) × (has_newline name ≡ false)

says-rest :
    (e : Str) (rest : Option Str)
    → strip_prefix opening e ≡ rest
    → elim rest [ none ↦ false | some s ↦ ends_with closing s && not (has_newline s) ] ≡ true
    → SaysExists e
says-rest e none h g = cc
says-rest e (some s) h g =
    let (name, q) = ends_with-split closing s (ground arith) in
    let line : (has_newline name || has_newline closing) ≡ false =
      sym (has_newline-++ name closing) ∙ ap has_newline (sym q) ∙ ground arith in
    (name, strip_prefix_inv opening e s h ∙ ap (λ x. opening ++ x) q, ground (arith, line))

match-says : (e : Str) → match_discord_error e ≡ true → SaysExists e
unfolding match_discord_error
match-says e h = says-rest e (strip_prefix opening e) refl h

says-match : (e : Str) → SaysExists e → match_discord_error e ≡ true
unfolding match_discord_error
says-match e (name, q, line) =
    rw
      (
        q,
        strip_prefix-++ opening (name ++ closing),
        ends_with-++ name closing,
        has_newline-++ name closing,
        line,
        closing_is_one_line,
      )
      refl

-- matchDiscordError accepts exactly the texts `The role 'NAME' already exists` in which the name has
-- no newline.
pub match_discord_error-decides : (e : Str) → (match_discord_error e ≡ true) ↔ SaysExists e
match_discord_error-decides e = (match-says e, says-match e)
