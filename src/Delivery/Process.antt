-- ===== src/Delivery/Process.antt =====
-- `NotificationDeliveryProcessor.process` (backend/src/tiber/application/services/delivery.py).
use tiber.Prelude.{ℕ}
use tiber.Enums.{channel_eq, status_eq}
use tiber.Result.{Result, ok, err}
use tiber.Notification.{Notification}
use tiber.Store.{Store}
use tiber.Delivery.{Ports}
use tiber.Delivery.Begin.{Begun, returned, claimed, begin}
use tiber.Delivery.Finish.{finish}

abbrev pub on_begun : Ports → Store → Result (Begun × Store) → Result Notification × Store
on_begun p s (err e) = (err e, s)
on_begun p s (ok (returned n, s')) = (ok n, s')
on_begun p s (ok (claimed n content address, s')) = finish p n content address s'

-- With no other worker between the two transactions.
unfoldable pub process : Ports → ℕ → ℕ → Store → Result Notification × Store
process p id project_id s = on_begun p s (begin p id project_id s)
