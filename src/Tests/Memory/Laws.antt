-- ===== src/Tests/Memory/Laws.antt =====
-- The Redis in memory does what is assumed of Redis.
use role_srv.Base.{
  ◌≡◌, ◌≢◌, refl, ap, subst, Bool, true, not, ◌&&◌, ◌||◌, Option, none, some, List, [], ◌∷◌, ◌++◌,
  Str, str, ◌=?◌, =?_iff, =?-refl, Dict, lookup, keys, contains, contains-keys, lookup-insert,
  is_some, if◌then◌else◌, ok, err, panic, Result, arith, WhenOk, ◌∙◌, sym,
}
use role_srv.Redis.{
  Entry, absent, text, RedisLaws, starts_with, or_else, present, field, has, is_plain,
}
use role_srv.Tests.Memory.Store.{
  Value, text_value, hash_value, set_value, entry, Memory, hash_of, set_of, erase, drop_last,
  matching, put, memory, text_of, or_wrong, inter, h_write, s_write, on_write, count,
}
use role_srv.Tests.Memory.Dicts.{
  lookup-erase, contains-without, contains-common, lookup-overlay, drop_last-star,
  contains-matching,
}

pub present-entry : (o : Option Value) → present (entry o) ≡ is_some o
present-entry none = refl
present-entry (some (text_value s)) = refl
present-entry (some (hash_value d)) = refl
present-entry (some (set_value xs)) = refl

abbrev pub view : Memory → Str → Entry
view w k = entry (lookup k w.db)

pub entry-put : (k : Str) (v : Value) (w : Memory) (j : Str) → j ≢ k → view (put k v w) j ≡ view w j
unfolding put
entry-put k v w j n = rw lookup-insert (ground (arith, =?_iff k j))

pub entry-put_self : (k : Str) (v : Value) (w : Memory) → view (put k v w) k ≡ entry (some v)
unfolding put
entry-put_self k v w = rw (lookup-insert, =?-refl)

pub read_text : (o : Option Value) → WhenOk (text_of o) text (entry o)
read_text none = refl
read_text (some (text_value s)) = refl
read_text (some (hash_value d)) = refl
read_text (some (set_value xs)) = refl

pub read_hash :
    (o : Option Value) (f : Str)
    → WhenOk (or_wrong (hash_of o) (λ d. d)) (λ d. lookup f d) (field (entry o) f)
read_hash none f = unfold lookup in refl
read_hash (some (text_value s)) f = refl
read_hash (some (hash_value d)) f = refl
read_hash (some (set_value xs)) f = refl

pub read_set :
    (o : Option Value) (x : Str)
    → WhenOk (or_wrong (set_of o) (λ xs. xs)) (λ xs. contains xs x) (has (entry o) x)
read_set none x = unfold contains in refl
read_set (some (text_value s)) x = refl
read_set (some (hash_value d)) x = refl
read_set (some (set_value xs)) x = refl

pub read_member :
    (o : Option Value) (x : Str)
    → WhenOk (or_wrong (set_of o) (λ xs. contains xs x)) (λ b. b) (has (entry o) x)
read_member none x = unfold contains in refl
read_member (some (text_value s)) x = refl
read_member (some (hash_value d)) x = refl
read_member (some (set_value xs)) x = refl

pub set_of-has :
    (o : Option Value) (xs : List Str)
    → set_of o ≡ some xs
    → (x : Str) → contains xs x ≡ has (entry o) x
set_of-has none xs e x =
    let q : [] ≡ xs = cc in unfold contains in sym (ap (λ (l : List Str). contains l x) q)
set_of-has (some (text_value s)) xs e x = cc
set_of-has (some (hash_value d)) xs e x = cc
set_of-has (some (set_value ys)) xs e x = cc

pub read_inter_of :
    (o p : Option (List Str)) (a b : Bool) (x : Str)
    → ((xs : List Str) → o ≡ some xs → contains xs x ≡ a)
    → ((ys : List Str) → p ≡ some ys → contains ys x ≡ b)
    → WhenOk (inter o p) (λ xs. contains xs x) (a && b)
read_inter_of none p a b x h g = refl
read_inter_of (some xs) none a b x h g = refl
read_inter_of (some xs) (some ys) a b x h g = contains-common xs ys x ∙ cc (h xs refl, g ys refl)

pub read_inter :
    (o p : Option Value) (x : Str)
    → WhenOk
        (inter (set_of o) (set_of p))
        (λ xs. contains xs x)
        (has (entry o) x && has (entry p) x)
read_inter o p x =
    read_inter_of (set_of o) (set_of p) _ _ x (λ xs e. set_of-has o xs e x)
      (λ ys e. set_of-has p ys e x)

pub write_hash :
    (o : Option Value) (k : Str) (new : Dict Str) (w : Memory) (g : Str)
    → WhenOk
        (h_write k new (hash_of o) w).0
        (λ _. field (view (h_write k new (hash_of o) w).1 k) g)
        (or_else (lookup g new) (field (entry o) g))
write_hash none k new w g = rw entry-put_self (lookup-overlay new [] g ∙ unfold lookup in refl)
write_hash (some (text_value s)) k new w g = refl
write_hash (some (hash_value d)) k new w g = rw entry-put_self (lookup-overlay new d g)
write_hash (some (set_value xs)) k new w g = refl

pub write_set :
    (o : Option Value) (k : Str) (change : List Str → List Str) (w : Memory) (y : Str) (b : Bool)
    → ((xs : List Str) → set_of o ≡ some xs → contains (change xs) y ≡ b)
    → WhenOk
        (s_write k change (set_of o) w).0
        (λ _. has (view (s_write k change (set_of o) w).1 k) y)
        b
write_set none k change w y b h = rw entry-put_self (h [] refl)
write_set (some (text_value s)) k change w y b h = refl
write_set (some (hash_value d)) k change w y b h = refl
write_set (some (set_value xs)) k change w y b h = rw entry-put_self (h xs refl)

pub write_hash-present :
    (o : Option Value) (k : Str) (new : Dict Str) (w : Memory)
    → WhenOk
        (on_write (h_write k new (hash_of o) w).0)
        (λ _. present (view (h_write k new (hash_of o) w).1 k))
        true
write_hash-present none k new w = rw entry-put_self
write_hash-present (some (text_value s)) k new w = refl
write_hash-present (some (hash_value d)) k new w = rw entry-put_self
write_hash-present (some (set_value xs)) k new w = refl

pub on_write-ok :
    {B : Type 0} (r : Result Bool) (a b : B) → WhenOk r (λ _. a) b → WhenOk (on_write r) (λ _. a) b
on_write-ok (ok x) a b h = h
on_write-ok (err e) a b h = refl
on_write-ok panic a b h = refl

pub write_hash-frame :
    (o : Option (Dict Str)) (k : Str) (new : Dict Str) (w : Memory) (j : Str)
    → j ≢ k
    → view (h_write k new o w).1 j ≡ view w j
write_hash-frame none k new w j n = refl
write_hash-frame (some d) k new w j n = entry-put k _ w j n

pub write_set-frame :
    (o : Option (List Str)) (k : Str) (change : List Str → List Str) (w : Memory) (j : Str)
    → j ≢ k
    → view (s_write k change o w).1 j ≡ view w j
write_set-frame none k change w j n = refl
write_set-frame (some d) k change w j n = entry-put k _ w j n

pub exists-count : (o : Option Value) → count o ≡ (if present (entry o) then 1 else 0)
exists-count none = refl
exists-count (some (text_value s)) = refl
exists-count (some (hash_value d)) = refl
exists-count (some (set_value xs)) = refl

pub lookup-single :
    (f v g : Str) (b : Option Str)
    → or_else (lookup g ((f, v) ∷ [])) b ≡ (if f =? g then some v else b)
unfolding lookup
lookup-single f v g b = ground arith

pub plain_prefix : is_plain (str "srv.perms") ≡ true
unfolding str contains ◌=?◌
plain_prefix = refl

pub contains-cons :
    (o : Option Value) (x : Str) (xs : List Str) (y : Str)
    → set_of o ≡ some xs
    → contains (x ∷ xs) y ≡ (x =? y || has (entry o) y)
unfolding contains
contains-cons o x xs y e = ap (λ b. x =? y || b) (set_of-has o xs e y)

pub write_field :
    (k f v : Str) (w : Memory) (g : Str)
    → WhenOk
        (memory.h_set k f v w).0
        (λ _. field (view (memory.h_set k f v w).1 k) g)
        (if f =? g then some v else field (view w k) g)
write_field k f v w g =
    subst (λ b. WhenOk (memory.h_set k f v w).0 (λ _. field (view (memory.h_set k f v w).1 k) g) b)
      (lookup-single f v g (field (view w k) g)) (write_hash (lookup k w.db) k ((f, v) ∷ []) w g)

pub entry-erase :
    (k : Str) (w : Memory) (j : Str) → j ≢ k → entry (lookup j (erase k w.db)) ≡ view w j
entry-erase k w j n = rw lookup-erase (ground (arith, =?_iff k j))

pub entry-erase_self : (k : Str) (w : Memory) → entry (lookup k (erase k w.db)) ≡ absent
entry-erase_self k w = rw (lookup-erase, =?-refl)

pub matching_lem :
    (p : Str) (w : Memory) (k : Str)
    → contains (matching (drop_last (p ++ str "*")) (keys w.db)) k
      ≡ (starts_with p k && present (view w k))
matching_lem p w k = rw (drop_last-star, contains-matching, contains-keys, present-entry)

abbrev pub memory_laws : RedisLaws memory
memory_laws = record {
  prefix = str "srv.perms";
  key_name_lem = λ k. refl;
  prefix_plain = plain_prefix;
  view = view;
  ping_frame = λ w j. refl;
  exists_frame = λ k w j. refl;
  get_frame = λ k w j. refl;
  keys_frame = λ p w j. refl;
  h_get_all_frame = λ k w j. refl;
  s_members_frame = λ k w j. refl;
  s_inter_frame = λ a b w j. refl;
  s_is_member_frame = λ k x w j. refl;
  set_frame = λ k v w j n. entry-put k _ w j n;
  del_frame = entry-erase;
  h_set_frame = λ k f v w j n. write_hash-frame _ k _ w j n;
  hm_set_frame = λ k d w j n. write_hash-frame _ k d w j n;
  s_add_frame = λ k x w j n. write_set-frame _ k _ w j n;
  s_rem_frame = λ k x w j n. write_set-frame _ k _ w j n;
  exists_ok = λ k w. exists-count (lookup k w.db);
  get_ok = λ k w. read_text (lookup k w.db);
  keys_ok = λ p w k _. matching_lem p w k;
  h_get_all_ok = λ k w f. read_hash (lookup k w.db) f;
  s_members_ok = λ k w x. read_set (lookup k w.db) x;
  s_inter_ok = λ a b w x. read_inter (lookup a w.db) (lookup b w.db) x;
  s_is_member_ok = λ k x w. read_member (lookup k w.db) x;
  set_ok = λ k v w. entry-put_self k (text_value v) w;
  del_ok = entry-erase_self;
  h_set_ok = write_field;
  hm_set_present = λ k d w. write_hash-present (lookup k w.db) k d w;
  hm_set_ok = λ k d w g.
      on_write-ok (h_write k d (hash_of (lookup k w.db)) w).0
        (field (view (h_write k d (hash_of (lookup k w.db)) w).1 k) g) _
        (write_hash (lookup k w.db) k d w g);
  s_add_ok = λ k x w y. write_set (lookup k w.db) k _ w y _ (λ xs e. contains-cons _ x xs y e);
  s_rem_ok = λ k x w y.
      write_set (lookup k w.db) k _ w y _
        (λ xs e. contains-without x y xs ∙ ap (λ b. not (x =? y) && b) (set_of-has _ xs e y));
}
