-- ===== src/Client/Removed.antt =====
-- RemoveRole of client/roles.go over the handlers: the permission and the kind of the role.
use role_srv.Base.{
  ◌≡◌, ◌≢◌, ◌∙◌, sym, ap, subst, arith, Bool, true, false, not, Str, str, Exec, ok, pure, or_empty,
  Bool-cases, ◌⊎◌, inl, inr, Keeps, Keeps-pure, if◌then◌else◌,
}
use role_srv.Strconv.{parse_bool}
use role_srv.Proto.{Role, zero_role, SyncRequest}
use role_srv.Redis.{RedisLaws, Entry, field}
use role_srv.Redis.Frames.{Holds}
use role_srv.Services.{Services}
use role_srv.Handler.Keys.{role_key}
use role_srv.Handler.Roles.{get_role}
use role_srv.Handler.Reads.{get_role-Keeps}
use role_srv.Handler.Roles.Remove.{remove_role-frame}
use role_srv.Client.Services.{ClientServices, permitted}
use role_srv.Client.Services.Keeping.{or_fatal-Keeps, or_fatal_at, sync_after-Keeps}
use role_srv.Client.Roles.{remove_role, remove_found}
use role_srv.Client.Guarded.{Front, client, flag, get_role-flags}
use role_srv.Stub.{Transport, service_name, new_roles_service, register_roles_handler}
use role_srv.Stub.Served.{roles_handler, Delivers, new_roles_service-roles_handler}

same_kind : (sig r : Bool) → (if sig then r else not r) ≡ true → r ≡ sig
same_kind true r h = h
same_kind false r h = ground arith

module _ (S : Services) (L : RedisLaws S.redis) (F : Front S.World)
    (send : SyncRequest → Exec S.World (Unit {0})) where
  abbrev C : ClientServices
  C = client S F (roles_handler S send)

  -- Neither the question for the permission nor the send to the channel touches the store.
  pub record Aside : Type 0 where
    pub permission_aside :
        (sender : Str) (w : S.World) (j : Str) → L.view (F.can_perform sender w).1 j ≡ L.view w j
    pub send_aside : (r : SyncRequest) (w : S.World) (j : Str) → L.view (send r w).1 j ≡ L.view w j

  -- Why RemoveRole is to leave a key alone: it is not that of the role, or the sender is not
  -- permitted, or the role of the store is of the other kind.
  abbrev pub Protected : Str → Str → Bool → S.World → Str → Type 0
  Protected sender short sig w j =
      (j ≢ role_key S short)
      ⊎ (((F.can_perform sender w).0 ≡ ok false) ⊎ (flag S L w short (str "Sig") ≢ sig))

  other_key :
      (sender short : Str) (sig : Bool) (w : S.World) (j : Str)
      → Protected sender short sig w j
      → (F.can_perform sender w).0 ≡ ok true
      → flag S L w short (str "Sig") ≡ sig
      → j ≢ role_key S short
  other_key sender short sig w j (inl n) allowed same = n
  other_key sender short sig w j (inr (inl denied)) allowed same = cc
  other_key sender short sig w j (inr (inr other)) allowed same = absurd (other same)

  remove_found-Keeps :
      (sender short j : Str) (e : Entry)
      → Aside
      → j ≢ role_key S short
      → Keeps (Holds S.redis L j e) (remove_found C sender short)
  unfolding remove_found roles_handler
  remove_found-Keeps sender short j e p n =
      or_fatal-Keeps C _ _ _
        (record {
          at = λ w h. record {
            at = remove_role-frame S L (record zero_role { short_name = short }) w j n ∙ h.at;
          };
        })
        λ _.
          or_fatal-Keeps C _ _ _
            (sync_after-Keeps C _
              (λ r. record { at = λ w h. record { at = p.send_aside r w j ∙ h.at } }) sender false)
            λ _. Keeps-pure _

  remove_role-protects :
      (sender short : Str) (sig : Bool) (w : S.World) (j : Str)
      → Aside
      → Protected sender short sig w j
      → L.view (remove_role C sender short sig w).1 j ≡ L.view w j
  unfolding remove_role permitted roles_handler pure
  remove_role-protects sender short sig w j p h =
      let H = Holds S.redis L j (L.view w j) in
      let asked : Role = record zero_role { short_name = short } in
      let w1 = (F.can_perform sender w).1 in
      let one : H w1 = record { at = p.permission_aside sender w j } in
      let two : H (get_role S asked w1).1 = (get_role-Keeps S L j (L.view w j) asked).at w1 one in
      let all : H (remove_role C sender short sig w).1 =
        or_fatal_at C H (F.can_perform sender) _ w one λ allowed e. elim (Bool-cases allowed) [
          | inr denied ↦ rw denied one
          | inl granted ↦ rw granted (
              or_fatal_at C H (get_role S asked) _ w1 two λ r f.
                elim (Bool-cases (if sig then r.sig else not r.sig)) [
                  | inr other ↦ rw other two
                  | inl same ↦
                      let read = ((get_role-flags S L short w1).holds r f).0 in
                      let stored : flag S L w1 short (str "Sig") ≡ flag S L w short (str "Sig") =
                        ap (λ v. parse_bool (or_empty (field v (str "Sig"))))
                          (p.permission_aside sender w (role_key S short)) in
                      let kind = sym stored ∙ sym read ∙ same_kind sig r.sig same in
                      let n = other_key sender short sig w j h (e ∙ ap ok granted) kind in
                      rw same ((remove_found-Keeps sender short j (L.view w j) p n).at _ two)
                ])
        ] in
      all.at

module _ (S : Services) (L : RedisLaws S.redis) where
  -- Whatever RemoveRole of a client that is connected by its stub does and replies, it changes no key
  -- of the store but that of the role, and not that key either where the sender is not permitted or
  -- the role in the store is of the other kind than asked for (a SIG or not). The permissions service
  -- and the send to the channel are taken to leave the store alone.
  pub remove_role-keeps :
      (F : Front S.World) (send : SyncRequest → Exec S.World (Unit {0})) (T : Transport S.World)
      (name sender short : Str) (sig : Bool) (w : S.World) (j : Str)
      → Delivers T (service_name name) (register_roles_handler (roles_handler S send))
      → Aside S L F send
      → Protected S L F send sender short sig w j
      → L.view (remove_role (client S F (new_roles_service T name)) sender short sig w).1 j
        ≡ L.view w j
  remove_role-keeps F send T name sender short sig w j d p h =
      subst (λ r. L.view (remove_role (client S F r) sender short sig w).1 j ≡ L.view w j)
        (sym (new_roles_service-roles_handler S send T name d))
        (remove_role-protects S L F send sender short sig w j p h)
