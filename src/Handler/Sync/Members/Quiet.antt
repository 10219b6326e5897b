-- ===== src/Handler/Sync/Members/Quiet.antt =====
-- Calls of syncMembers that change neither the store nor the server, in a block.
use role_srv.Base.{◌≡◌, Str, ok, Exec, ◌>>=◌, Ensures, >>=-Ensures, Keeps}
use role_srv.Redis.{RedisLaws}
use role_srv.Services.{Services}
use role_srv.Handler.Sync.Report.{reporting}
use role_srv.Handler.Sync.Report.Success.{reporting-bind}
use role_srv.Handler.Sync.Members.Server.{Server, ServerLaws, Same}

module _ (S : Services) (L : RedisLaws S.redis) (D : Server S L) (Q : ServerLaws S L D)
    (w : S.World) where
  module _ {A B : Type 0} {R : B → S.World → Type 0} where
    -- Behind a call that changes nothing.
    pub quiet-bind :
        (m : Exec S.World A) (f : A → Exec S.World B) (v : S.World)
        → Keeps (Same S L D w) m
        → Same S L D w v
        → ((a : A) → (m v).0 ≡ ok a → Same S L D w (m v).1 → Ensures (f a) (m v).1 R)
        → Ensures (m >>= f) v R
    quiet-bind m f v k h next = >>=-Ensures m f λ a e. next a e (k.at v h)

    -- The same, where an error is reported.
    pub read-bind :
        (c p : Str) (m : Exec S.World A) (f : A → Exec S.World B) (v : S.World)
        → Keeps (Same S L D w) m
        → Same S L D w v
        → ((a : A) → (m v).0 ≡ ok a → Same S L D w (m v).1 → Ensures (f a) (m v).1 R)
        → Ensures (reporting S c p m >>= f) v R
    read-bind c p m f v k h next = reporting-bind S c p m f v λ a e. next a e (k.at v h)
