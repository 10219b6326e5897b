-- ===== src/Handler/Sync/Thread/Drain.antt =====
-- The thread serves what waits.
use mathlib.Core.List.{append-nil, append_assoc}
use role_srv.Base.{
  ℕ, ◌<◌, ◌≡◌, ◌≢◌, ◌∙◌, refl, sym, ap, List, [], ◌∷◌, ◌++◌, length, Option, none, some, Result, ok,
  err, panic, Yields, Yields-bind, Yields-gets, Yields-attempt, pure,
}
use role_srv.Proto.{SyncRequest}
use role_srv.Services.{Services}
use role_srv.Handler.Sync.Answers.{
  Answers, send_dual_message-Yields, send_since-Yields, sync_roles-Returns, sync_members-Returns,
}
use role_srv.Handler.Sync.Members.Pages.{PagingLaws, sync_members_ends}
use role_srv.Handler.Sync.Thread.{
  System, ready, thread_after, sync_thread, sync_once, synced, completed,
}
use role_srv.Handler.Sync.Thread.Queue.{Run, here, next, accepted}

module _ (S : Services) (fuel : ℕ) where
  -- The world behind a turn for each request, one after the other.
  abbrev pub served_world : List SyncRequest → S.World → S.World
  served_world [] w = w
  served_world (r ∷ rs) w = served_world rs (sync_once S fuel r w).1

  -- A state behind a run without new requests in which nothing waits, and the thread does.
  pub record Drained (s t : System S) : Type 0 where
    pub run : Run S fuel s [] t
    pub idle : t.queue ≡ []
    pub waits : t.thread ≡ ready
    pub served : t.taken ≡ s.taken ++ s.queue
    pub world : t.world ≡ served_world s.queue s.world

  module _ (A : Answers S) (P : PagingLaws S)
      (enough : (w : S.World) → length (P.members w) < fuel) where
    completed-Yields : (t1 t2 : ℕ) (r : SyncRequest) → Yields (completed S t1 t2 r) (some tt)
    unfolding pure
    completed-Yields t1 t2 r =
        Yields-bind _ _ tt _ (send_since-Yields S A _ t2 r.channel_id r.send_message) (
          Yields-bind _ _ tt _ (send_since-Yields S A _ t1 r.channel_id r.send_message)
            (record { at = λ w. refl }))

    synced-Yields :
        (t1 t2 : ℕ) (r : SyncRequest) (o : Result (Option (Unit {0})))
        → o ≢ ok none
        → o ≢ panic
        → Yields (synced S t1 t2 r o) (some tt)
    synced-Yields t1 t2 r (ok (some _)) n m = completed-Yields t1 t2 r
    synced-Yields t1 t2 r (ok none) n m = absurd (n refl)
    synced-Yields t1 t2 r (err _) n m = completed-Yields t1 t2 r
    synced-Yields t1 t2 r panic n m = absurd (m refl)

    -- Every turn ends.
    sync_once-Yields : (r : SyncRequest) → Yields (sync_once S fuel r) (some tt)
    unfolding sync_once
    sync_once-Yields r =
        let c = r.channel_id in
        let b = r.send_message in
        Yields-gets _ _ _ λ t1. Yields-bind _ _ tt _ (send_dual_message-Yields S A _ c b) (
          Yields-attempt _ _ _ (sync_roles-Returns S A c) λ _.
            Yields-bind _ _ tt _ (send_since-Yields S A _ t1 c b) (
              Yields-gets _ _ _ λ t2. Yields-bind _ _ tt _ (send_dual_message-Yields S A _ c b) (
                Yields-attempt _ _ _ (sync_members-Returns S A fuel c b) λ w.
                  synced-Yields t1 t2 r _ (sync_members_ends S P c b fuel w (enough w))
                    ((sync_members-Returns S A fuel c b).at w))))

    -- The state in which the thread has served the first request of the queue.
    serve : SyncRequest → List SyncRequest → System S → System S
    serve r rest s = record {
      queue = rest;
      taken = s.taken ++ (r ∷ []);
      thread = thread_after (sync_once S fuel r s.world).0;
      world = (sync_once S fuel r s.world).1;
    }

    drain_from :
        (s u : System S) (q : List SyncRequest)
        → Run S fuel s [] u
        → u.queue ≡ q
        → u.thread ≡ ready
        → u.taken ++ u.queue ≡ s.taken ++ s.queue
        → served_world u.queue u.world ≡ served_world s.queue s.world
        → (t : System S) × Drained s t
    unfolding serve accepted
    drain_from s u [] run e h k same = (
      u,
      record {
        run = run;
        idle = e;
        waits = h;
        served = sym (append-nil u.taken) ∙ ap (λ q. u.taken ++ q) (sym e) ∙ k;
        world = ap (λ q. served_world q u.world) (sym e) ∙ same;
      },
    )
    drain_from s u (r ∷ q) run e h k same =
        drain_from s (serve r q u) q (next run (sync_thread r q h e refl)) refl
          (ap thread_after ((sync_once-Yields r).at u.world))
          (append_assoc u.taken (r ∷ []) q ∙ ap (λ q. u.taken ++ q) (sym e) ∙ k)
          (ap (λ q. served_world q u.world) (sym e) ∙ same)

    -- If no call panics, and the gateway serves pages of a server that never has as many members as
    -- the fuel, then the thread, where it waits for a request, can go on, with no request accepted
    -- meanwhile, until nothing waits: every turn ends. Then it waits again, it has taken every
    -- request that waited, in order, and the world is the one behind a turn for each of them.
    pub queue_drains : (s : System S) → s.thread ≡ ready → (t : System S) × Drained s t
    queue_drains s h = drain_from s s s.queue here refl h refl refl
