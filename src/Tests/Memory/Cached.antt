-- ===== src/Tests/Memory/Cached.antt =====
-- A Discord server in memory whose list of roles comes from a cache.
use role_srv.Base.{
  ◌≡◌, false, Bool-cases, inl, inr, refl, ◌||◌, [], Str, str, WhenOk, =?-eq, ◌=?◌, ok, err,
  if◌then◌else◌,
}
use role_srv.Services.{Services}
use role_srv.Handler.Sync.Roles.Differences.{named}
use role_srv.Handler.Sync.Roles.Discord.{DiscordLaws}
use role_srv.Tests.Memory.Store.{Memory}
use role_srv.Tests.Memory.Guild.{live, guild_gateway, named-drop_role}

-- The server behind a list of roles that is not renewed: the list stays empty.
abbrev pub cached : Services
cached = record live {
  gateway = record guild_gateway {
    get_all_roles = λ w. (ok [], w);
    create_role = λ r w.
        if named w.guild r
        then (err (str "The role 'New' already exists"), w)
        else guild_gateway.create_role r w;
  };
}

pub cached_created :
    (r : Str) (w : Memory) (x : Str)
    → WhenOk
        (cached.gateway.create_role r w).0
        (λ _. named (cached.gateway.create_role r w).1.guild x)
        (r =? x || named w.guild x)
cached_created r w x = elim (Bool-cases (named w.guild r)) [ inl e ↦ rw e refl | inr e ↦ rw e refl ]

pub cached_exists :
    (r e : Str) (w : Memory) (x : Str)
    → (cached.gateway.create_role r w).0 ≡ err e
    → named (cached.gateway.create_role r w).1.guild x ≡ (r =? x || named w.guild x)
cached_exists r e w x h = elim (Bool-cases (named w.guild r)) [
  | inl k ↦ rw k (elim (Bool-cases (r =? x)) [ inl q ↦ rw (q, ← =?-eq r x q, k) | inr q ↦ rw q ])
  | inr k ↦ rw k
]

abbrev pub cached_laws : DiscordLaws cached
cached_laws = record {
  there = λ w x. named w.guild x;
  listed = λ w x. false;
  get_all_roles_ok = λ w x. refl;
  create_role_ok = cached_created;
  create_role_exists = λ r e w x h m. cached_exists r e w x h;
  delete_role_ok = λ r w x. named-drop_role r x w.guild;
  edit_role_frame = λ q w x. refl;
  get_all_roles_frame = λ w x. refl;
  keys_frame = λ p w x. refl;
  h_get_all_frame = λ k w x. refl;
  keys_listed = λ p w x. refl;
  h_get_all_listed = λ k w x. refl;
}
