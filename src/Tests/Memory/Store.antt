-- ===== src/Tests/Memory/Store.antt =====
-- The commands of Redis over an association list.
use role_srv.Base.{
  Bool, true, Option, none, some, List, [], ◌∷◌, ◌++◌, Str, str, ◌=?◌, Dict, lookup, insert, keys,
  contains, if◌then◌else◌, ok, err, panic, Result, ℕ,
}
use role_srv.Gateway.{DiscordRole, Member, EditRoleRequest}
use role_srv.Redis.{Entry, absent, text, hash, members, Redis, starts_with}

pub data Value : Type 0 where
  text_value : Str → Value
  hash_value : Dict Str → Value
  set_value : List Str → Value

abbrev pub entry : Option Value → Entry
entry none = absent
entry (some (text_value s)) = text s
entry (some (hash_value d)) = hash (λ f. lookup f d)
entry (some (set_value xs)) = members (contains xs)

pub record Memory : Type 0 where
  pub db : Dict Value
  -- The roles and the members of the Discord server.
  pub guild : List DiscordRole
  pub users : List Member
  -- The edits of roles, the last one first.
  pub edits : List EditRoleRequest

abbrev pub wrong_type : Str
wrong_type = str "WRONGTYPE Operation against a key holding the wrong kind of value"

abbrev pub hash_of : Option Value → Option (Dict Str)
hash_of none = some []
hash_of (some (hash_value d)) = some d
hash_of (some _) = none

abbrev pub set_of : Option Value → Option (List Str)
set_of none = some []
set_of (some (set_value xs)) = some xs
set_of (some _) = none

unfoldable pub erase : Str → Dict Value → Dict Value
erase k [] = []
erase k ((j, v) ∷ d) = let rest = erase k d in if j =? k then rest else (j, v) ∷ rest

unfoldable pub without : Str → List Str → List Str
without x [] = []
without x (y ∷ ys) = let rest = without x ys in if x =? y then rest else y ∷ rest

unfoldable pub common : List Str → List Str → List Str
common [] ys = []
common (x ∷ xs) ys = let rest = common xs ys in if contains ys x then x ∷ rest else rest

-- The values of `d` over those of `base`.
unfoldable pub overlay : Dict Str → Dict Str → Dict Str
overlay [] base = base
overlay ((f, v) ∷ d) base = insert f v (overlay d base)

-- A pattern of KEYS is read as a prefix and a star.
unfoldable pub drop_last : Str → Str
drop_last [] = []
drop_last (c ∷ []) = []
drop_last (c ∷ d ∷ s) = c ∷ drop_last (d ∷ s)

unfoldable pub matching : Str → List Str → List Str
matching p [] = []
matching p (k ∷ ks) = let rest = matching p ks in if starts_with p k then k ∷ rest else rest

unfoldable pub put : Str → Value → Memory → Memory
unfolding insert
put k v w = record w { db = insert k v w.db }

abbrev pub or_wrong : {A B : Type 0} → Option A → (A → B) → Result B
or_wrong none f = err wrong_type
or_wrong (some a) f = ok (f a)

abbrev pub text_of : Option Value → Result Str
text_of none = err (str "redis: nil")
text_of (some (text_value s)) = ok s
text_of (some _) = err wrong_type

abbrev pub h_write : Str → Dict Str → Option (Dict Str) → Memory → Result Bool × Memory
h_write k new none w = (err wrong_type, w)
h_write k new (some d) w = (ok true, put k (hash_value (overlay new d)) w)

abbrev pub s_write : Str → (List Str → List Str) → Option (List Str) → Memory → Result ℕ × Memory
s_write k change none w = (err wrong_type, w)
s_write k change (some xs) w = (ok 1, put k (set_value (change xs)) w)

abbrev pub count : Option Value → ℕ
count none = 0
count (some v) = 1

abbrev pub on_write : Result Bool → Result Str
on_write (ok b) = ok (str "OK")
on_write (err e) = err e
on_write panic = panic

abbrev pub inter : Option (List Str) → Option (List Str) → Result (List Str)
inter (some xs) (some ys) = ok (common xs ys)
inter _ _ = err wrong_type

abbrev pub memory : Redis Memory
memory = record {
  key_name = λ k. str "srv.perms" ++ (str ":" ++ k);
  ping = λ w. (ok (str "PONG"), w);
  exists = λ k w. (ok (count (lookup k w.db)), w);
  get = λ k w. (text_of (lookup k w.db), w);
  set = λ k v w. (ok (str "OK"), put k (text_value v) w);
  del = λ k w. (ok 1, record w { db = erase k w.db });
  keys = λ p w. (ok (matching (drop_last p) (keys w.db)), w);
  h_get_all = λ k w. (or_wrong (hash_of (lookup k w.db)) (λ d. d), w);
  h_set = λ k f v w. h_write k ((f, v) ∷ []) (hash_of (lookup k w.db)) w;
  hm_set = λ k d w. let (r, w') = h_write k d (hash_of (lookup k w.db)) w in (on_write r, w');
  s_members = λ k w. (or_wrong (set_of (lookup k w.db)) (λ xs. xs), w);
  s_add = λ k x w. s_write k (λ xs. x ∷ xs) (set_of (lookup k w.db)) w;
  s_rem = λ k x w. s_write k (without x) (set_of (lookup k w.db)) w;
  s_inter = λ j k w. (inter (set_of (lookup j w.db)) (set_of (lookup k w.db)), w);
  s_is_member = λ k x w. (or_wrong (set_of (lookup k w.db)) (λ xs. contains xs x), w);
}
