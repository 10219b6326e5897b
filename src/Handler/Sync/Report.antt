-- ===== src/Handler/Sync/Report.antt =====
-- The messages of the synchronisation: sendMessage and sendDualMessage of handler/Roles.go, and the
-- report of an error that ends a synchronisation.
pub mod Success
use role_srv.Base.{
  Bool, true, ◌++◌, Str, Exec, Result, ok, err, panic, pure, raise, crash, attempt, ◌>>=◌, ◌>>◌,
  if◌then◌else◌,
}
use role_srv.Services.{Services}

module _ (S : Services) where
  open S use {World, gateway, send_success, send_fatal}

  -- An error of the gateway is logged and dropped.
  unfoldable pub send_message : Str → Str → Bool → Exec World (Unit {0})
  send_message channel message send =
      let post = (do attempt (gateway.send_message channel message); pure tt) in
      if send then post else pure tt

  unfoldable pub send_dual_message : Str → Str → Bool → Exec World (Unit {0})
  send_dual_message message channel send = send_message channel (send_success message) send

  -- msg := fmt.Sprintf(where_, err.Error()); h.sendMessage(.., common.SendFatal(msg), true)
  unfoldable pub report : Str → Str → Str → Exec World (Unit {0})
  report channel place e = send_message channel (send_fatal (place ++ e)) true

  abbrev pub reported : {A : Type 0} → Str → Str → Result A → Exec World A
  reported channel place (ok a) = pure a
  reported channel place (err e) = report channel place e >> raise e
  reported channel place panic = crash

  -- if err != nil { report; return err }
  unfoldable pub reporting : {A : Type 0} → Str → Str → Exec World A → Exec World A
  reporting channel place m = attempt m >>= reported channel place
