-- ===== src/Delivery/Keeps.antt =====
-- What the writes of delivery keep of the store (backend/src/tiber/application/services/delivery.py).
use tiber.Prelude.{ℕ, Option, some, Bool, true, false, ◌≡◌, arith, refl, sym, if◌then◌else◌}
use tiber.Prelude.Eq.{◌==◌, nat_eq, nat_beq_iff}
use tiber.Enums.{NotificationStatus, status_eq}
use tiber.Notification.{Notification, is_status}
use tiber.Notification.Invariant.{IsConsistent}
use tiber.Notification.Lifecycle.{is_terminal}
use tiber.Store.{Store, write, save, claimed_row}

-- Every row is consistent and kept by its id.
abbrev pub HasSoundRows : (ℕ → Option Notification) → Type 0
HasSoundRows rows = (j : ℕ) (n : Notification) → rows j ≡ some n → (n.id ≡ j) × IsConsistent n

abbrev pub IsSound : Store → Type 0
IsSound s = HasSoundRows s.rows

write-if :
    (n m : Notification) (j : ℕ) (rows : ℕ → Option Notification) (b : Bool)
    → HasSoundRows rows
    → IsConsistent n
    → (b ≡ true → j ≡ n.id)
    → (if b then some n else rows j) ≡ some m
    → (m.id ≡ j) × IsConsistent m
write-if n m j rows true h c k e = let q : n ≡ m = cc in rw (sym q) (sym (k refl), c)
write-if n m j rows false h c k e = h j m e

pub write-IsSound :
    (n : Notification) (rows : ℕ → Option Notification)
    → HasSoundRows rows
    → IsConsistent n
    → HasSoundRows (write n rows)
write-IsSound n rows h c j m e =
    write-if n m j rows (j == n.id) h c (λ t. (nat_beq_iff j n.id).0 t) e

-- What `process` keeps of the store before its first transaction commits: the rows stay sound, and
-- nothing is sent or recorded.
pub record Keeps (s s' : Store) : Type 0 where
  pub sound : IsSound s → IsSound s'
  pub sends : s'.sends ≡ s.sends
  pub attempts : s'.attempts ≡ s.attempts

pub Keeps-same : (s : Store) → Keeps s s
Keeps-same s = record { sound = λ h. h; sends = refl; attempts = refl }

pub Keeps-save : (n : Notification) (s : Store) → IsConsistent n → Keeps s (save n s)
unfolding save
Keeps-save n s c = record { sound = λ h. write-IsSound n s.rows h c; sends = refl; attempts = refl }

pub claimed_row-IsConsistent :
    (n row : Notification) (expected : NotificationStatus)
    → n.status ≡ NotificationStatus.processing
    → is_terminal expected ≡ false
    → is_status row.status expected ≡ true
    → IsConsistent row
    → IsConsistent (claimed_row n row)
claimed_row-IsConsistent n row expected busy live at h = ground arith
