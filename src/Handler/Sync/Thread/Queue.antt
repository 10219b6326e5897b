-- ===== src/Handler/Sync/Thread/Queue.antt =====
-- Runs of the handlers and the thread around the channel.
use role_srv.Base.{ℕ, List, [], ◌∷◌, ◌++◌}
use role_srv.Proto.{SyncRequest}
use role_srv.Services.{Services}
use role_srv.Handler.Sync.Thread.{System, Step, sync_to_chat_service, sync_thread, other}

module _ (S : Services) (fuel : ℕ) where
  -- The requests that a step puts into the channel.
  unfoldable pub accepted : {s t : System S} → Step S fuel s t → List SyncRequest
  accepted (sync_to_chat_service r _ _ _) = r ∷ []
  accepted (sync_thread _ _ _ _ _) = []
  accepted (other _ _ _) = []

  -- A run, with the requests that its steps accepted, in order.
  pub data Run (s : System S) : List SyncRequest → System S → Type 0 where
    here : Run s [] s
    next :
        {rs : List SyncRequest} {t u : System S}
        → Run s rs t
        → (st : Step S fuel t u) → Run s (rs ++ accepted st) u
