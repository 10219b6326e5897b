-- ===== src/Redis/Frames.antt =====
-- Each command keeps what the keys other than its own hold.
use role_srv.Base.{◌≡◌, ◌≢◌, ◌∙◌, Str, Dict, Keeps, keeps_rules}
use role_srv.Redis.{Entry, Redis, RedisLaws}

module _ {W : Type 0} (R : Redis W) (L : RedisLaws R) where
  -- Key `j` holds `e`.
  pub record Holds (j : Str) (e : Entry) (w : W) : Type 0 where
    pub at : L.view w j ≡ e

  module _ (j : Str) (e : Entry) where
    pub ping-Keeps : Keeps (Holds j e) R.ping
    ping-Keeps = record { at = λ w h. record { at = L.ping_frame w j ∙ h.at } }

    pub exists-Keeps : (k : Str) → Keeps (Holds j e) (R.exists k)
    exists-Keeps k = record { at = λ w h. record { at = L.exists_frame k w j ∙ h.at } }

    pub get-Keeps : (k : Str) → Keeps (Holds j e) (R.get k)
    get-Keeps k = record { at = λ w h. record { at = L.get_frame k w j ∙ h.at } }

    pub keys-Keeps : (k : Str) → Keeps (Holds j e) (R.keys k)
    keys-Keeps k = record { at = λ w h. record { at = L.keys_frame k w j ∙ h.at } }

    pub h_get_all-Keeps : (k : Str) → Keeps (Holds j e) (R.h_get_all k)
    h_get_all-Keeps k = record { at = λ w h. record { at = L.h_get_all_frame k w j ∙ h.at } }

    pub s_members-Keeps : (k : Str) → Keeps (Holds j e) (R.s_members k)
    s_members-Keeps k = record { at = λ w h. record { at = L.s_members_frame k w j ∙ h.at } }

    pub s_inter-Keeps : (a b : Str) → Keeps (Holds j e) (R.s_inter a b)
    s_inter-Keeps a b = record { at = λ w h. record { at = L.s_inter_frame a b w j ∙ h.at } }

    pub s_is_member-Keeps : (k x : Str) → Keeps (Holds j e) (R.s_is_member k x)
    s_is_member-Keeps k x = record {
      at = λ w h. record { at = L.s_is_member_frame k x w j ∙ h.at };
    }

    pub set-Keeps : (k v : Str) → j ≢ k → Keeps (Holds j e) (R.set k v)
    set-Keeps k v n = record { at = λ w h. record { at = L.set_frame k v w j n ∙ h.at } }

    pub del-Keeps : (k : Str) → j ≢ k → Keeps (Holds j e) (R.del k)
    del-Keeps k n = record { at = λ w h. record { at = L.del_frame k w j n ∙ h.at } }

    pub h_set-Keeps : (k f v : Str) → j ≢ k → Keeps (Holds j e) (R.h_set k f v)
    h_set-Keeps k f v n = record { at = λ w h. record { at = L.h_set_frame k f v w j n ∙ h.at } }

    pub hm_set-Keeps : (k : Str) (d : Dict Str) → j ≢ k → Keeps (Holds j e) (R.hm_set k d)
    hm_set-Keeps k d n = record { at = λ w h. record { at = L.hm_set_frame k d w j n ∙ h.at } }

    pub s_add-Keeps : (k x : Str) → j ≢ k → Keeps (Holds j e) (R.s_add k x)
    s_add-Keeps k x n = record { at = λ w h. record { at = L.s_add_frame k x w j n ∙ h.at } }

    pub s_rem-Keeps : (k x : Str) → j ≢ k → Keeps (Holds j e) (R.s_rem k x)
    s_rem-Keeps k x n = record { at = λ w h. record { at = L.s_rem_frame k x w j n ∙ h.at } }

pub ruleset redis_frames = (
  keeps_rules, ping-Keeps, exists-Keeps, get-Keeps, keys-Keeps, h_get_all-Keeps, s_members-Keeps,
  s_inter-Keeps, s_is_member-Keeps, set-Keeps, del-Keeps, h_set-Keeps, hm_set-Keeps, s_add-Keeps,
  s_rem-Keeps,
)
