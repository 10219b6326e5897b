-- ===== src/Tests/Memory/Server.antt =====
-- The store and the Discord server in memory, side by side.
use role_srv.Base.{
  ◌≡◌, ◌∙◌, ap, subst, refl, sym, map, true, Bool-cases, inl, inr, ◌⊎◌, arith, ◌&&◌, ◌||◌, List, [],
  ◌∷◌, Str, ◌=?◌, =?-refl, contains, ok,
}
use role_srv.Gateway.{Member, DiscordRole}
use role_srv.Handler.Sync.Members.Pages.{Among, behind}
use role_srv.Handler.Sync.Members.Server.{Server, ServerLaws, Same, BehindPage}
use role_srv.Tests.Memory.Laws.{memory_laws}
use role_srv.Tests.Memory.Store.{Memory}
use role_srv.Tests.Memory.Guild.{
  live, live_paging, live_updates, holds, known, set_roles, put_roles, later, with_id, id_in,
}

abbrev pub live_server : Server live memory_laws
live_server = record { paging = live_paging; updates = live_updates; roles = λ w. w.guild }

pub later_all :
    (after : Str) (ms : List Member) (m : Member)
    → Among m ms
    → behind after m ≡ true
    → Among m (later after ms)
unfolding later
later_all after [] m h b = elim h [ ]
later_all after (x ∷ ms) m (inl e) b = rw (ap (behind after) (sym e) ∙ b) (inl e)
later_all after (x ∷ ms) m (inr h) b = elim (Bool-cases (behind after x)) [
  | inl e ↦ rw e (inr (later_all after ms m h b))
  | inr e ↦ rw e (later_all after ms m h b)
]

pub page_all :
    (after : Str) (ms page : List Member) (m : Member)
    → ok (later after ms) ≡ ok page
    → Among m ms
    → behind after m ≡ true
    → Among m page ⊎ BehindPage m page
page_all after ms page m e h b =
    let q : later after ms ≡ page = cc in inl (subst (Among m) q (later_all after ms m h b))

id_in-with_id : (ids : List Str) (x : Str) → id_in (map with_id ids) x ≡ contains ids x
unfolding contains
id_in-with_id [] x = refl
id_in-with_id (i ∷ ids) x = ap (λ b. i =? x || b) (id_in-with_id ids x)

holds-set_roles_self :
    (m : Str) (ids : List Str) (us : List Member) (x : Str)
    → holds (set_roles m ids us) m x ≡ (known us m && contains ids x)
unfolding set_roles
holds-set_roles_self m ids [] x = refl
holds-set_roles_self m ids (u ∷ us) x = elim (Bool-cases (u.user.id =? m)) [
  | inl e ↦ rw e (ground (arith, holds-set_roles_self m ids us x, id_in-with_id ids x, e))
  | inr e ↦ rw (e, e) (holds-set_roles_self m ids us x)
]

pub holds-put_roles_self :
    (m : Str) (ids : List Str) (us : List Member) (x : Str)
    → holds (put_roles m ids us) m x ≡ contains ids x
unfolding put_roles
holds-put_roles_self m ids us x = elim (Bool-cases (known us m)) [
  | inl e ↦ rw e (holds-set_roles_self m ids us x ∙ rw e refl)
  | inr e ↦
      rw (e, =?-refl m) (ground (arith, holds-set_roles_self m ids us x, id_in-with_id ids x, e))
]

pub roles_read : (w : Memory) (rs : List DiscordRole) → ok w.guild ≡ ok rs → rs ≡ w.guild
roles_read w rs h = cc

abbrev as_before : (w : Memory) → Same live memory_laws live_server w w
as_before w = record { store = refl; members = refl; has_role = refl; roles = refl }

abbrev pub live_server_laws : ServerLaws live memory_laws live_server
live_server_laws = record {
  exists_quiet = λ k w. as_before w;
  keys_quiet = λ k w. as_before w;
  h_get_all_quiet = λ k w. as_before w;
  s_members_quiet = λ k w. as_before w;
  s_inter_quiet = λ a b w. as_before w;
  s_is_member_quiet = λ k x w. as_before w;
  get_all_members_quiet = λ n after w. as_before w;
  get_all_roles_quiet = λ w. as_before w;
  send_message_quiet = λ c t w. as_before w;
  roles_ok = λ w rs h. roles_read w rs h;
  page_rest = λ n after w page m e pos h b. page_all after w.users page m e h b;
  update_member_ok = λ m ids w x h. holds-put_roles_self m ids w.users x;
}
