-- ===== src/Redis.antt =====
-- The Redis client as the service sees it (github.com/go-redis/redis behind services-common/redis):
-- its calls over an unknown world, and what Redis documents of them.
pub mod Frames
pub mod Listed
use role_srv.Base.{
  ℕ, ◌≡◌, ◌≢◌, Bool, true, false, ◌&&◌, ◌||◌, Option, none, some, List, [], ◌∷◌, ◌++◌, Str, str,
  ◌=?◌, Dict, lookup, contains, if◌then◌else◌, Exec, WhenOk, not,
}

-- What a key holds.
pub data Entry : Type 0 where
  absent : Entry
  text : Str → Entry
  hash : (Str → Option Str) → Entry
  members : (Str → Bool) → Entry

abbrev pub present : Entry → Bool
present absent = false
present _ = true

abbrev pub field : Entry → Str → Option Str
field (hash h) f = h f
field _ f = none

abbrev pub has : Entry → Str → Bool
has (members m) x = m x
has _ x = false

abbrev pub or_else {ℓ} : {A : Type ℓ} → Option A → Option A → Option A
or_else none b = b
or_else (some a) b = some a

pub record Redis (World : Type 0) : Type 0 where
  pub key_name : Str → Str
  pub ping : Exec World Str
  pub exists : Str → Exec World ℕ
  pub get : Str → Exec World Str
  pub set : Str → Str → Exec World Str
  pub del : Str → Exec World ℕ
  pub keys : Str → Exec World (List Str)
  pub h_get_all : Str → Exec World (Dict Str)
  pub h_set : Str → Str → Str → Exec World Bool
  pub hm_set : Str → Dict Str → Exec World Str
  pub s_members : Str → Exec World (List Str)
  pub s_add : Str → Str → Exec World ℕ
  pub s_rem : Str → Str → Exec World ℕ
  pub s_inter : Str → Str → Exec World (List Str)
  pub s_is_member : Str → Str → Exec World Bool

abbrev pub starts_with : Str → Str → Bool
starts_with [] s = true
starts_with (c ∷ p) [] = false
starts_with (c ∷ p) (d ∷ s) = (c ∷ []) =? (d ∷ []) && starts_with p s

-- The bytes that a pattern of KEYS gives a meaning of its own.
abbrev pub is_plain : Str → Bool
is_plain [] = true
is_plain (c ∷ p) =
    let special = contains (str "*" ∷ str "?" ∷ str "[" ∷ str "\\" ∷ []) (c ∷ []) in
    if special then false else is_plain p

-- A command without an error reply does what the manual says. A command may fail at any time, and
-- then its own key may hold anything; no command changes another key than its own.
pub record RedisLaws {World : Type 0} (R : Redis World) : Type 0 where
  pub prefix : Str
  pub key_name_lem : (k : Str) → R.key_name k ≡ prefix ++ (str ":" ++ k)
  pub prefix_plain : is_plain prefix ≡ true
  pub view : World → Str → Entry
  -- What reads leave alone: every key.
  pub ping_frame : (w : World) (j : Str) → view (R.ping w).1 j ≡ view w j
  pub exists_frame : (k : Str) (w : World) (j : Str) → view (R.exists k w).1 j ≡ view w j
  pub get_frame : (k : Str) (w : World) (j : Str) → view (R.get k w).1 j ≡ view w j
  pub keys_frame : (p : Str) (w : World) (j : Str) → view (R.keys p w).1 j ≡ view w j
  pub h_get_all_frame : (k : Str) (w : World) (j : Str) → view (R.h_get_all k w).1 j ≡ view w j
  pub s_members_frame : (k : Str) (w : World) (j : Str) → view (R.s_members k w).1 j ≡ view w j
  pub s_inter_frame : (a b : Str) (w : World) (j : Str) → view (R.s_inter a b w).1 j ≡ view w j
  pub s_is_member_frame :
      (k x : Str) (w : World) (j : Str) → view (R.s_is_member k x w).1 j ≡ view w j
  -- What writes leave alone: every key but their own.
  pub set_frame : (k v : Str) (w : World) (j : Str) → j ≢ k → view (R.set k v w).1 j ≡ view w j
  pub del_frame : (k : Str) (w : World) (j : Str) → j ≢ k → view (R.del k w).1 j ≡ view w j
  pub h_set_frame :
      (k f v : Str) (w : World) (j : Str) → j ≢ k → view (R.h_set k f v w).1 j ≡ view w j
  pub hm_set_frame :
      (k : Str) (d : Dict Str) (w : World) (j : Str) → j ≢ k → view (R.hm_set k d w).1 j ≡ view w j
  pub s_add_frame : (k x : Str) (w : World) (j : Str) → j ≢ k → view (R.s_add k x w).1 j ≡ view w j
  pub s_rem_frame : (k x : Str) (w : World) (j : Str) → j ≢ k → view (R.s_rem k x w).1 j ≡ view w j
  -- What reads reply.
  pub exists_ok :
      (k : Str) (w : World) → WhenOk (R.exists k w).0 (λ n. n) (if present (view w k) then 1 else 0)
  pub get_ok : (k : Str) (w : World) → WhenOk (R.get k w).0 text (view w k)
  pub keys_ok :
      (p : Str) (w : World) (k : Str)
      → is_plain p ≡ true
      → WhenOk
          (R.keys (p ++ str "*") w).0
          (λ ks. contains ks k)
          (starts_with p k && present (view w k))
  pub h_get_all_ok :
      (k : Str) (w : World) (f : Str)
      → WhenOk (R.h_get_all k w).0 (λ d. lookup f d) (field (view w k) f)
  pub s_members_ok :
      (k : Str) (w : World) (x : Str)
      → WhenOk (R.s_members k w).0 (λ xs. contains xs x) (has (view w k) x)
  pub s_inter_ok :
      (a b : Str) (w : World) (x : Str)
      → WhenOk (R.s_inter a b w).0 (λ xs. contains xs x) (has (view w a) x && has (view w b) x)
  pub s_is_member_ok :
      (k x : Str) (w : World) → WhenOk (R.s_is_member k x w).0 (λ b. b) (has (view w k) x)
  -- What writes do to their own key.
  pub set_ok :
      (k v : Str) (w : World) → WhenOk (R.set k v w).0 (λ _. view (R.set k v w).1 k) (text v)
  pub del_ok : (k : Str) (w : World) → WhenOk (R.del k w).0 (λ _. view (R.del k w).1 k) absent
  pub h_set_ok :
      (k f v : Str) (w : World) (g : Str)
      → WhenOk
          (R.h_set k f v w).0
          (λ _. field (view (R.h_set k f v w).1 k) g)
          (if f =? g then some v else field (view w k) g)
  -- HMSET wants at least one field.
  pub hm_set_present :
      (k : Str) (d : Dict Str) (w : World)
      → WhenOk (R.hm_set k d w).0 (λ _. present (view (R.hm_set k d w).1 k)) true
  pub hm_set_ok :
      (k : Str) (d : Dict Str) (w : World) (g : Str)
      → WhenOk
          (R.hm_set k d w).0
          (λ _. field (view (R.hm_set k d w).1 k) g)
          (or_else (lookup g d) (field (view w k) g))
  pub s_add_ok :
      (k x : Str) (w : World) (y : Str)
      → WhenOk
          (R.s_add k x w).0
          (λ _. has (view (R.s_add k x w).1 k) y)
          (x =? y || has (view w k) y)
  pub s_rem_ok :
      (k x : Str) (w : World) (y : Str)
      → WhenOk
          (R.s_rem k x w).0
          (λ _. has (view (R.s_rem k x w).1 k) y)
          (not (x =? y) && has (view w k) y)
