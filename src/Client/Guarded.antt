-- ===== src/Client/Guarded.antt =====
-- The commands on SIGs over the handlers: what they do not change.
use role_srv.Base.{
  ◌≡◌, ◌∙◌, refl, sym, ap, subst, arith, ℕ, Bool, true, false, not, ◌&&◌, ◌||◌, Str, str, List,
  Exec, Result, ok, err, panic, pure, attempt_reply, continue, crash, ◌>>=◌, or_empty, at,
  Bool-cases, inl, inr, Ensures, >>=-Ensures, Ensures-pure,
}
use role_srv.Strconv.{parse_bool}
use role_srv.Proto.{Role, zero_role, SyncRequest}
use role_srv.Redis.{RedisLaws, field}
use role_srv.StringSets.{StringSets}
use role_srv.Services.{Services}
use role_srv.Handler.Keys.{role_key}
use role_srv.Handler.Roles.{get_role, map_role_to_protobuf_role}
use role_srv.Handler.Roles.Find.{find_role-fields}
use role_srv.Handler.Reads.{get_role-Keeps}
use role_srv.Client.Services.{RolesService, ClientServices}
use role_srv.Client.Sigs.{or_error, or_error_reply, sig_action}
use role_srv.Stub.{Transport, service_name, new_roles_service, register_roles_handler}
use role_srv.Stub.Served.{roles_handler, Delivers, new_roles_service-roles_handler}

refusal :
    (sig joinable can first second : Bool)
    → first ≡ sig
    → first ≡ true
    → second ≡ can
    → (sig && (not joinable || can)) ≡ false
    → (joinable && not second) ≡ true
refusal sig joinable can first second e f g h = ground arith

-- What a client has besides the stub of the role service.
pub record Front (World : Type 0) : Type 1 where
  pub can_perform : Str → Exec World Bool
  pub sets : StringSets
  pub send_success : Str → Str
  pub send_error : Str → Str
  pub send_fatal : Str → Str
  pub order : List Str → List Str
  pub now : World → ℕ
  pub show_duration : ℕ → Str

-- A client beside the server, over the given calls of the role service.
abbrev pub client : (S : Services) → Front S.World → RolesService S.World → ClientServices
client S F r = record {
  World = S.World;
  roles = r;
  can_perform = F.can_perform;
  sets = F.sets;
  send_success = F.send_success;
  send_error = F.send_error;
  send_fatal = F.send_fatal;
  order = F.order;
  now = F.now;
  show_duration = F.show_duration;
}

module _ (C : ClientServices) {A : Type 0} (P : C.World → Type 0) where
  or_error_of :
      (r : Result A) (w : C.World) (next : A → Exec C.World Str)
      → P w
      → ((a : A) → r ≡ ok a → P (next a w).1)
      → P (continue (attempt_reply r w).0 (or_error_reply C next) (attempt_reply r w).1).1
  unfolding pure crash
  or_error_of (ok a) w next h k = k a refl
  or_error_of (err e) w next h k = h
  or_error_of panic w next h k = h

  -- What holds behind a call whose error is the reply.
  pub or_error_at :
      (m : Exec C.World A) (next : A → Exec C.World Str) (w : C.World)
      → P (m w).1
      → ((a : A) → (m w).0 ≡ ok a → P (next a (m w).1).1)
      → P (or_error C m next w).1
  unfolding or_error ◌>>=◌
  or_error_at m next w h k = or_error_of (m w).0 (m w).1 next h k

module _ (S : Services) (L : RedisLaws S.redis) where
  -- A flag of a role in the store.
  abbrev pub flag : S.World → Str → Str → Bool
  flag w sig f = parse_bool (or_empty (field (L.view w (role_key S sig)) f))

  pub get_role-flags :
      (sig : Str) (w : S.World)
      → Ensures (get_role S (record zero_role { short_name = sig })) w (λ got _.
        (got.sig ≡ flag w sig (str "Sig")) × (got.joinable ≡ flag w sig (str "Joinable")))
  unfolding get_role map_role_to_protobuf_role at
  get_role-flags sig w = >>=-Ensures _ _ λ d found.
      let read = λ (f : Str).
        ap (λ o. parse_bool (or_empty o)) ((find_role-fields S L sig w).holds d found f) in
      Ensures-pure _ (read (str "Sig"), read (str "Joinable"))

  -- What the two tests of sigAction want of the role in the store.
  abbrev pub allows : S.World → Str → Bool → Bool
  allows w sig joinable = flag w sig (str "Sig") && (not joinable || flag w sig (str "Joinable"))

  module _ (F : Front S.World) (send : SyncRequest → Exec S.World (Unit {0})) where
    sig_action-keeps_store :
        (sender sig : Str) (join joinable : Bool) (w : S.World) (j : Str)
        → allows w sig joinable ≡ false
        → L.view (sig_action (client S F (roles_handler S send)) sender sig join joinable w).1 j
          ≡ L.view w j
    unfolding sig_action roles_handler pure
    sig_action-keeps_store sender sig join joinable w j h =
        let C = client S F (roles_handler S send) in
        let r : Role = record zero_role { short_name = sig } in
        let keeps = λ (k : Str) (v : S.World).
          ((get_role-Keeps S L k (L.view v k) r).at v (record { at = refl })).at in
        let w1 = (get_role S r w).1 in
        or_error_at C (λ v. L.view v j ≡ L.view w j) (get_role S r) _ w (keeps j w)
          λ foo e. elim (Bool-cases foo.sig) [
            | inr no_sig ↦ rw no_sig (keeps j w)
            | inl is_sig ↦ rw is_sig (
                or_error_at C (λ v. L.view v j ≡ L.view w j) (get_role S r) _ w1
                  (keeps j w1 ∙ keeps j w)
                  λ role f.
                    let first = (get_role-flags sig w).holds foo e in
                    let second = (get_role-flags sig w1).holds role f in
                    let same : flag w1 sig (str "Joinable") ≡ flag w sig (str "Joinable") =
                      ap (λ v. parse_bool (or_empty (field v (str "Joinable"))))
                        (keeps (role_key S sig) w) in
                    let refused : (joinable && not role.joinable) ≡ true =
                      refusal _ _ _ _ _ first.0 is_sig (second.1 ∙ same) h in
                    rw refused (keeps j w1 ∙ keeps j w))
          ]

  -- A client that is connected by its stub changes nothing in the store where a command on a SIG is
  -- for a role that is not a SIG there, or is JoinSIG of a SIG that is not joinable.
  pub sig_action-refuses :
      (F : Front S.World) (send : SyncRequest → Exec S.World (Unit {0})) (T : Transport S.World)
      (name sender sig : Str) (join joinable : Bool) (w : S.World) (j : Str)
      → Delivers T (service_name name) (register_roles_handler (roles_handler S send))
      → allows w sig joinable ≡ false
      → L.view (sig_action (client S F (new_roles_service T name)) sender sig join joinable w).1 j
        ≡ L.view w j
  sig_action-refuses F send T name sender sig join joinable w j d h =
      subst (λ r. L.view (sig_action (client S F r) sender sig join joinable w).1 j ≡ L.view w j)
        (sym (new_roles_service-roles_handler S send T name d))
        (sig_action-keeps_store F send sender sig join joinable w j h)
