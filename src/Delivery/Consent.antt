-- ===== src/Delivery/Consent.antt =====
-- What becomes of a notification that its recipient has refused
-- (backend/src/tiber/application/services/delivery.py with
-- backend/src/tiber/domain/policies/rules.py).
use tiber.Prelude.{ℕ, false, ◌≡◌, some, is_empty, String}
use tiber.Enums.{suppress, channel_eq, category_eq}
use tiber.Result.{ok}
use tiber.Platform.{Platform}
use tiber.Notification.{Notification}
use tiber.Notification.Lifecycle.{written, mark_suppressed}
use tiber.Recipient.{Recipient}
use tiber.Policy.{PolicyDecision}
use tiber.Store.{Store, save}
use tiber.Delivery.{Ports, deciding}
use tiber.Delivery.Process.{process}

-- A rejection for good.
abbrev pub Suppresses : PolicyDecision → Type 0
Suppresses d = (d.allowed ≡ false) × (d.consequence ≡ some suppress)

module _ (platform : Platform) (p : Ports) where
  -- What a suppression for some reason makes of a row and of the store.
  pub record IsSuppressed (id project_id : ℕ) (s : Store) (n : Notification) : Type 0 where
    pub reason : String
    pub given : is_empty reason ≡ false
    pub effect :
        let n' = written (p.clock deciding) (mark_suppressed reason) n in
        process p id project_id s ≡ (ok n', save n' s)
