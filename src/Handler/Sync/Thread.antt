-- ===== src/Handler/Sync/Thread.antt =====
-- The channel `syncControl` and the thread that reads it: SyncToChatService and syncThread of
-- handler/Roles.go.
pub mod Queue
pub mod Drain
pub mod Turn
use role_srv.Base.{
  ℕ, List, [], ◌∷◌, ◌++◌, str, Exec, gets, attempt, ◌>>=◌, ◌>>◌, length, ◌<◌, ◌≡◌, ◌≢◌, Option,
  none, some, Result, ok, err, panic, pure, crash,
}
use role_srv.Proto.{SyncRequest}
use role_srv.Services.{Services}
use role_srv.Handler.Sync.Report.{send_dual_message}
use role_srv.Handler.Sync.Roles.{sync_roles}
use role_srv.Handler.Sync.Members.Run.{send_since, sync_members}

-- make(chan syncData, 30)
abbrev pub channel_size : ℕ
channel_size = 30

-- The thread waits for a request, or is in a turn that never ends, or a panic ended the process.
pub data Thread : Type 0 where
  ready : Thread
  stuck : Thread
  dead : Thread

-- What becomes of the thread with a turn. No error comes out of a turn.
abbrev pub thread_after : Result (Option (Unit {0})) → Thread
thread_after (ok (some _)) = ready
thread_after (ok none) = stuck
thread_after (err _) = ready
thread_after panic = dead

module _ (S : Services) where
  open S use {World, now}

  -- The end of a turn.
  abbrev pub completed : ℕ → ℕ → SyncRequest → Exec World (Option (Unit {0}))
  completed t1 t2 r = do
    send_since S (str "Completed Member Sync") t2 r.channel_id r.send_message
    send_since S (str "Completed All Syncing") t1 r.channel_id r.send_message
    pure (some tt)

  -- What follows syncMembers, by its outcome.
  abbrev pub synced :
      ℕ → ℕ → SyncRequest → Result (Option (Unit {0})) → Exec World (Option (Unit {0}))
  synced t1 t2 r (ok (some _)) = completed t1 t2 r
  synced t1 t2 r (ok none) = pure none
  synced t1 t2 r (err _) = completed t1 t2 r
  synced t1 t2 r panic = crash

  -- The body of the loop of syncThread, behind the receive. Both errors are dropped; `none` means
  -- that the fuel of syncMembers ran out, so that the turn does not end.
  unfoldable pub sync_once : ℕ → SyncRequest → Exec World (Option (Unit {0}))
  sync_once fuel r = do
    t1 ← gets now
    send_dual_message S (str "Starting Role Sync") r.channel_id r.send_message
    attempt (sync_roles S r.channel_id)
    send_since S (str "Completed Role Sync") t1 r.channel_id r.send_message
    t2 ← gets now
    send_dual_message S (str "Starting Member Sync") r.channel_id r.send_message
    outcome ← attempt (sync_members S fuel r.channel_id r.send_message)
    synced t1 t2 r outcome

  -- The handler's own state: the requests that wait in the channel, those taken from it, and what
  -- became of the thread.
  pub record System : Type 0 where
    pub queue : List SyncRequest
    pub taken : List SyncRequest
    pub thread : Thread
    pub world : World

  -- A send waits while the channel is full, a receive while it is empty. The thread receives only
  -- behind a turn that has ended, and nothing happens in a process that has died.
  pub data Step (fuel : ℕ) (s t : System) : Type 0 where
    sync_to_chat_service :
        (r : SyncRequest)
        → s.thread ≢ dead
        → length s.queue < channel_size
        → t ≡ record s { queue = s.queue ++ (r ∷ []) }
        → Step fuel s t
    sync_thread :
        (r : SyncRequest) (rest : List SyncRequest)
        → s.thread ≡ ready
        → s.queue ≡ r ∷ rest
        → t ≡ record {
          queue = rest;
          taken = s.taken ++ (r ∷ []);
          thread = thread_after (sync_once fuel r s.world).0;
          world = (sync_once fuel r s.world).1;
        }
        → Step fuel s t
    -- Everything else that happens in the world.
    other : (w : World) → s.thread ≢ dead → t ≡ record s { world = w } → Step fuel s t
