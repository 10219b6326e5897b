-- ===== src/Client/Services/Keeping.antt =====
-- The steps that the commands share: what comes behind a call that succeeds, and what they keep.
use role_srv.Base.{
  refl, continue, attempt_reply, pure, crash, ◌>>=◌, ◌≡◌, ◌∙◌, ap, Bool, Str, List, [], ◌∷◌, Exec,
  Result, ok, err, panic, attempt, attempt-bind, is_ok, is_ok-ne-panic, Keeps, Keeps-pure,
  Keeps-crash, Keeps-bind, Keeps-attempt,
}
use role_srv.Proto.{SyncRequest}
use role_srv.Client.Services.{
  ClientServices, get_sync_request, sender_parts, sync_after, or_fatal, or_fatal_reply,
}

module _ {W : Type 0} (P : W → Type 0) where
  sender_parts-Keeps : (b : Bool) (s : List Str) → Keeps P (sender_parts b s)
  sender_parts-Keeps b [] = Keeps-crash
  sender_parts-Keeps b (c ∷ []) = Keeps-crash
  sender_parts-Keeps b (c ∷ u ∷ rest) = Keeps-pure _

module _ (C : ClientServices) where
  -- A call that succeeds is followed by what comes next.
  pub or_fatal_ok :
      {A : Type 0} (m : Exec C.World A) (next : A → Exec C.World Str) (w : C.World) (a : A)
      → (m w).0 ≡ ok a
      → or_fatal C m next w ≡ next a (m w).1
  unfolding or_fatal
  or_fatal_ok m next w a e =
      attempt-bind m _ w (is_ok-ne-panic _ (ap is_ok e))
      ∙ ap (λ r. or_fatal_reply C next r (m w).1) e

  module _ (P : C.World → Type 0) where
    or_fatal_reply-Keeps :
        {A : Type 0} (next : A → Exec C.World Str)
        → ((a : A) → Keeps P (next a))
        → (r : Result A) → Keeps P (or_fatal_reply C next r)
    or_fatal_reply-Keeps next k (ok a) = k a
    or_fatal_reply-Keeps next k (err e) = Keeps-pure _
    or_fatal_reply-Keeps next k panic = Keeps-crash

    pub or_fatal-Keeps :
        {A : Type 0} (m : Exec C.World A) (next : A → Exec C.World Str)
        → Keeps P m
        → ((a : A) → Keeps P (next a))
        → Keeps P (or_fatal C m next)
    unfolding or_fatal
    or_fatal-Keeps m next h k =
        Keeps-bind (attempt m) _ (Keeps-attempt m h) (or_fatal_reply-Keeps next k)

    pub sync_after-Keeps :
        ((r : SyncRequest) → Keeps P (C.roles.sync_to_chat_service r))
        → (sender : Str) (b : Bool) → Keeps P (sync_after C sender b)
    unfolding sync_after get_sync_request
    sync_after-Keeps k sender b = Keeps-bind _ _ (sender_parts-Keeps P b _) k

  module _ {A : Type 0} (P : C.World → Type 0) where
    or_fatal_of :
        (r : Result A) (w : C.World) (next : A → Exec C.World Str)
        → P w
        → ((a : A) → r ≡ ok a → P (next a w).1)
        → P (continue (attempt_reply r w).0 (or_fatal_reply C next) (attempt_reply r w).1).1
    unfolding pure crash
    or_fatal_of (ok a) w next h k = k a refl
    or_fatal_of (err e) w next h k = h
    or_fatal_of panic w next h k = h

    -- What holds behind a call whose error is the reply.
    pub or_fatal_at :
        (m : Exec C.World A) (next : A → Exec C.World Str) (w : C.World)
        → P (m w).1
        → ((a : A) → (m w).0 ≡ ok a → P (next a (m w).1).1)
        → P (or_fatal C m next w).1
    unfolding or_fatal ◌>>=◌
    or_fatal_at m next w h k = or_fatal_of (m w).0 (m w).1 next h k
