-- ===== src/Client/Denied.antt =====
-- The guards of the commands: permissions, the sender and the keys.
use role_srv.Base.{
  not, ◌&&◌, is_empty, ◌∷◌, ◌++◌, Str, ◌≡◌, ◌∙◌, arith, Bool, false, contains, Exec, Result, ok,
  pure, crash, panic,
}
use role_srv.Base.Text.Split.{Lacks, split-two, split-Lacks}
use role_srv.StringSets.{StringSetLaws}
use role_srv.Client.Services.{ClientServices, permitted, get_sync_request, denied}
use role_srv.Client.Services.Keeping.{or_fatal_ok}
use role_srv.Client.Roles
use role_srv.Client.Roles.{settable_keys, unknown_key}
use role_srv.Client.Filters

-- A sender "channel:user" is taken apart at its colon. A sender without a colon is a panic.
pub get_sync_request_lem :
    {W : Type 0} (channel user : Str) (send : Bool) (w : W)
    → Lacks b':' channel
    → Lacks b':' user
    → (get_sync_request (channel ++ b':' ∷ user) send w
        ≡ (ok (record { channel_id = channel; user_id = user; send_message = send }), w))
      × (get_sync_request channel send w ≡ (panic, w))
unfolding get_sync_request pure crash
get_sync_request_lem channel user send w a b =
    (rw (split-two channel b':' user a b), rw (split-Lacks channel b':' a))

module _ (C : ClientServices) where
  open C use {World, can_perform, send_error}

  permitted-denied :
      (sender : Str) (command : Exec World Str) (w : World)
      → (can_perform sender w).0 ≡ ok false
      → permitted C sender command w ≡ (ok (send_error denied), (can_perform sender w).1)
  unfolding permitted pure
  permitted-denied sender command w e = or_fatal_ok C (can_perform sender) _ w false e

  -- The reply to a sender without permission.
  abbrev pub refused : Str → World → Result Str × World
  refused sender w = (ok (send_error denied), (can_perform sender w).1)

  -- If the permissions service says no, then each of the seven commands that ask it replies with the
  -- same error, and nothing happens behind the question.
  pub denied_commands :
      (sender a b c d e : Str) (joinable sig : Bool) (w : World)
      → (can_perform sender w).0 ≡ ok false
      → (Roles.add_role C sender a b c d joinable e sig w ≡ refused sender w)
        × (Roles.remove_role C sender a sig w ≡ refused sender w)
        × (Roles.role_info C sender a sig w ≡ refused sender w)
        × (Filters.add_filter C sender a b w ≡ refused sender w)
        × (Filters.remove_filter C sender a w ≡ refused sender w)
        × (Filters.add_member C sender a b w ≡ refused sender w)
        × (Filters.remove_member C sender a b w ≡ refused sender w)
  unfolding Roles.add_role Roles.remove_role Roles.role_info Filters.add_filter
      Filters.remove_filter Filters.add_member Filters.remove_member
  denied_commands sender a b c d e joinable sig w refusal = (
    permitted-denied sender _ w refusal,
    permitted-denied sender _ w refusal,
    permitted-denied sender _ w refusal,
    permitted-denied sender _ w refusal,
    permitted-denied sender _ w refusal,
    permitted-denied sender _ w refusal,
    permitted-denied sender _ w refusal,
  )

  pub settable :
      (T : StringSetLaws C.sets) (key : Str)
      → C.sets.has (C.sets.from_slice settable_keys C.sets.new) key
        ≡ (not (is_empty key) && contains settable_keys key)
  settable T key = ground (arith, T.has-from_slice settable_keys key C.sets.new, T.has-new key)

  -- `Set` with a key that is not one of the seven replies with the list of keys, and calls nothing.
  set_unknown :
      StringSetLaws C.sets
      → (sender name key value : Str) (w : World) → contains settable_keys key ≡ false
      → Roles.set C sender name key value w ≡ (ok (unknown_key C key), w)
  unfolding Roles.set pure
  set_unknown T sender name key value w h =
      let unknown : C.sets.has (C.sets.from_slice settable_keys C.sets.new) key ≡ false =
        settable T key ∙ ground (arith, h) in
      rw unknown
