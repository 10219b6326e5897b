-- ===== src/Tests/Memory/Guild.antt =====
-- A Discord server in memory, beside the store.
use role_srv.Base.{
  ◌≡◌, ◌≢◌, ap, subst, map, false, true, Bool-cases, inl, inr, refl, arith, Bool, not, ◌&&◌, ◌||◌,
  List, [], ◌∷◌, Str, ◌=?◌, =?_iff, =?-refl, ok, err, if◌then◌else◌,
}
use role_srv.Gateway.{Gateway, DiscordRole, Member, EditRoleRequest}
use role_srv.Services.{Services}
use role_srv.Handler.Sync.Roles.Differences.{named}
use role_srv.Handler.Sync.Roles.Discord.{DiscordLaws}
use role_srv.Handler.Sync.Roles.Edits.{EditLaws, blank}
use role_srv.Handler.Sync.Members.Pages.{PagingLaws, All, Among, behind}
use role_srv.Handler.Sync.Members.Spared.{UpdateLaws}
use role_srv.Tests.Memory.Laws.{memory_laws}
use role_srv.Tests.Memory.Store.{Memory}
use role_srv.Tests.Memory.Sets.{services, gateway}

unfoldable pub drop_role : Str → List DiscordRole → List DiscordRole
drop_role r [] = []
drop_role r (q ∷ qs) = let rest = drop_role r qs in if r =? q.name then rest else q ∷ rest

pub named-drop_role :
    (r x : Str) (qs : List DiscordRole) → named (drop_role r qs) x ≡ (not (r =? x) && named qs x)
unfolding drop_role
named-drop_role r x [] = ground arith
named-drop_role r x (q ∷ qs) =
    ground (arith, named-drop_role r x qs, =?_iff r q.name, =?_iff q.name x, =?_iff r x)

abbrev pub id_in : List DiscordRole → Str → Bool
id_in [] x = false
id_in (r ∷ rs) x = r.id =? x || id_in rs x

-- A user of that id has a role of that id.
abbrev pub holds : List Member → Str → Str → Bool
holds [] n x = false
holds (m ∷ ms) n x = (m.user.id =? n && id_in m.roles x) || holds ms n x

abbrev pub known : List Member → Str → Bool
known [] n = false
known (m ∷ ms) n = m.user.id =? n || known ms n

abbrev pub with_id : Str → DiscordRole
with_id id = record { id = id; name = [] }

unfoldable pub set_roles : Str → List Str → List Member → List Member
set_roles m ids [] = []
set_roles m ids (u ∷ us) =
    (if u.user.id =? m then record u { roles = map with_id ids } else u) ∷ set_roles m ids us

holds-set_roles :
    (m : Str) (ids : List Str) (us : List Member) (n x : Str)
    → n ≢ m
    → holds (set_roles m ids us) n x ≡ holds us n x
unfolding set_roles
holds-set_roles m ids [] n x h = refl
holds-set_roles m ids (u ∷ us) n x h = elim (Bool-cases (u.user.id =? m)) [
  | inl e ↦
      let other : (u.user.id =? n) ≡ false =
        ground (arith, =?_iff u.user.id m, =?_iff u.user.id n) in
      rw (e, other) (holds-set_roles m ids us n x h)
  | inr e ↦
      rw e (ap (λ b. (u.user.id =? n && id_in u.roles x) || b) (holds-set_roles m ids us n x h))
]

-- A user of that id, with these roles.
abbrev pub newcomer : Str → List Str → Member
newcomer m ids = record {
  nick = [];
  user = record {
    id = m;
    email = [];
    username = [];
    avatar = [];
    discriminator = [];
    verified = false;
    mfa_enabled = false;
    bot = false;
  };
  roles = map with_id ids;
}

-- The update of a user; one that is not there is added.
unfoldable pub put_roles : Str → List Str → List Member → List Member
put_roles m ids us = if known us m then set_roles m ids us else newcomer m ids ∷ set_roles m ids us

pub holds-put_roles :
    (m : Str) (ids : List Str) (us : List Member) (n x : Str)
    → n ≢ m
    → holds (put_roles m ids us) n x ≡ holds us n x
unfolding put_roles
holds-put_roles m ids us n x h = elim (Bool-cases (known us m)) [
  | inl e ↦ rw e (holds-set_roles m ids us n x h)
  | inr e ↦
      let other : (m =? n) ≡ false = ground (arith, =?_iff m n) in
      rw (e, other) (holds-set_roles m ids us n x h)
]

unfoldable pub later : Str → List Member → List Member
later after [] = []
later after (m ∷ ms) = let rest = later after ms in if behind after m then m ∷ rest else rest

more :
    (after : Str) (y : Member) (xs ms : List Member)
    → All (λ m. Among m ms × (behind after m ≡ true)) xs
    → All (λ m. Among m (y ∷ ms) × (behind after m ≡ true)) xs
more after y [] ms h = tt
more after y (x ∷ xs) ms h = ((inr (h.0.0), h.0.1), more after y xs ms h.1)

pub later_lem :
    (after : Str) (ms : List Member)
    → All (λ m. Among m ms × (behind after m ≡ true)) (later after ms)
unfolding later
later_lem after [] = tt
later_lem after (m ∷ ms) = elim (Bool-cases (behind after m)) [
  | inl e ↦ rw e ((inl refl, e), more after m _ ms (later_lem after ms))
  | inr e ↦ rw e (more after m _ ms (later_lem after ms))
]

pub page_lem :
    (after : Str) (ms page : List Member)
    → ok (later after ms) ≡ ok page
    → All (λ m. Among m ms × (behind after m ≡ true)) page
page_lem after ms page h =
    let e : later after ms ≡ page = cc in
    subst (All (λ m. Among m ms × (behind after m ≡ true))) e (later_lem after ms)

-- The last edit of a role.
unfoldable pub last_edit : List EditRoleRequest → Str → EditRoleRequest
last_edit [] x = blank
last_edit (q ∷ qs) x = if q.name =? x then q else last_edit qs x

pub last_edit_self :
    (q : EditRoleRequest) (qs : List EditRoleRequest) → last_edit (q ∷ qs) q.name ≡ q
unfolding last_edit
last_edit_self q qs = rw (=?-refl q.name)

pub last_edit_other :
    (q : EditRoleRequest) (qs : List EditRoleRequest) (x : Str)
    → x ≢ q.name
    → last_edit (q ∷ qs) x ≡ last_edit qs x
unfolding last_edit
last_edit_other q qs x h = elim (Bool-cases (q.name =? x)) [
  | inl e ↦ absurd (h (ground (arith, =?_iff q.name x)))
  | inr e ↦ rw e
]

abbrev pub guild_gateway : Gateway Memory
guild_gateway = record (gateway [] []) {
  get_all_members = λ n after w. (ok (later after w.users), w);
  get_all_members_as_slice = λ w. (ok w.users, w);
  update_member = λ m ids w. (ok tt, record w { users = put_roles m ids w.users });
  get_all_roles = λ w. (ok w.guild, w);
  create_role = λ r w. (ok tt, record w { guild = record { id = r; name = r } ∷ w.guild });
  edit_role = λ q w. (ok tt, record w { edits = q ∷ w.edits });
  delete_role = λ r w. (ok tt, record w { guild = drop_role r w.guild });
}

abbrev pub live : Services
live = record (services [] []) { gateway = guild_gateway }

pub never_exists :
    (r e : Str) (w : Memory) (x : Str)
    → (guild_gateway.create_role r w).0 ≡ err e
    → named (guild_gateway.create_role r w).1.guild x ≡ (r =? x || named w.guild x)
never_exists r e w x h = cc

abbrev pub live_laws : DiscordLaws live
live_laws = record {
  there = λ w x. named w.guild x;
  listed = λ w x. named w.guild x;
  get_all_roles_ok = λ w x. refl;
  create_role_ok = λ r w x. refl;
  create_role_exists = λ r e w x h m. never_exists r e w x h;
  delete_role_ok = λ r w x. named-drop_role r x w.guild;
  edit_role_frame = λ q w x. refl;
  get_all_roles_frame = λ w x. refl;
  keys_frame = λ p w x. refl;
  h_get_all_frame = λ k w x. refl;
  keys_listed = λ p w x. refl;
  h_get_all_listed = λ k w x. refl;
}

abbrev pub live_paging : PagingLaws live
live_paging = record {
  members = λ w. w.users;
  page_ok = λ n after w page h. page_lem after w.users page h;
  page_frame = λ n after w. refl;
}

abbrev pub live_updates : UpdateLaws live memory_laws
live_updates = record {
  has_role = λ w n x. holds w.users n x;
  update_member_frame = λ m ids w n x h. holds-put_roles m ids w.users n x h;
  send_message_frame = λ c t w n x. refl;
  s_is_member_frame = λ k y w n x. refl;
  update_member_store = λ m ids w j. refl;
  send_message_store = λ c t w j. refl;
}

abbrev pub live_edits : EditLaws live
live_edits = record {
  attributes = λ w x. last_edit w.edits x;
  edit_role_ok = λ q w. last_edit_self q w.edits;
  edit_role_other = λ q w x h. last_edit_other q w.edits x h;
}
