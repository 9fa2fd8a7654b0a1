-- ===== src/Examples/Lives.antt =====
-- Calls on the sample notification.
use tiber.Prelude.{◌≡◌, refl, ℕ, List, [], ◌∷◌}
use tiber.Enums.{NotificationStatus, pending}
use tiber.Result.{ok}
use tiber.Notification.{Notification, create, new_pending}
use tiber.Notification.Invariant.{IsConsistent}
use tiber.Notification.Lifecycle.{
  Method, invoke, written, mark_processing, mark_delivered, mark_failed,
}
use tiber.Notification.Calls.{◌⟶◌, invoke-eq-if, invoke-⟶}
use tiber.Notification.History.{
  ◌⟶*◌, drive, drive-create, drive-SameVerdict, SameIdentity, SameVerdict,
}
use tiber.Examples.{welcome, fields, row, row-IsConsistent}

invoke-eq-if_example : invoke 5 mark_processing row ≡ ok (written 5 mark_processing row)
invoke-eq-if_example = invoke-eq-if 5 mark_processing row row-IsConsistent

invoke-⟶_example : pending ⟶ NotificationStatus.processing
unfolding invoke tiber.Notification.mark_processing tiber.Notification.post_init
invoke-⟶_example = invoke-⟶ 5 mark_processing row {n' = written 5 mark_processing row} refl

abbrev calls : List (ℕ × Method)
calls = (5, mark_processing) ∷ (6, mark_delivered) ∷ (7, mark_failed "late") ∷ []

drive-create_example :
    (create 1_000 7 welcome fields ≡ ok row)
    × IsConsistent (drive calls row)
    × SameIdentity row (drive calls row)
    × (pending ⟶* (drive calls row).status)
drive-create_example = drive-create 1_000 7 welcome fields calls

abbrev ended : Notification
ended = written 6 mark_delivered row

drive-SameVerdict_example :
    SameVerdict ended (drive ((7, mark_failed "late") ∷ (8, mark_processing) ∷ []) ended)
drive-SameVerdict_example =
    drive-SameVerdict ((7, mark_failed "late") ∷ (8, mark_processing) ∷ []) ended refl
