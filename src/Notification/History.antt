-- ===== src/Notification/History.antt =====
-- Any sequence of calls on one notification. A call that raises leaves the notification, which is
-- immutable, as it was.
use tiber.Prelude.{ℕ, ◌≡◌, List, [], ◌∷◌, true, arith, refl, inl, inr, ◌⊎◌}
use tiber.Enums.{NotificationStatus, pending}
use tiber.Result.{Result, ok, err}
use tiber.Content.{NotificationContent}
use tiber.Notification.{Notification, NewNotification, new_pending, post_init, create}
use tiber.Notification.Invariant.{IsConsistent}
use tiber.Notification.Lifecycle.{Method, invoke, legal, written, is_terminal, mark_processing}
use tiber.Notification.Calls.{◌⟶◌, edit, invoke-ok, invoke-⟶}

abbrev keep_on_error : Result Notification → Notification → Notification
keep_on_error (ok n) _ = n
keep_on_error (err _) n = n

unfoldable pub attempt : ℕ × Method → Notification → Notification
attempt (now, m) n = keep_on_error (invoke now m n) n

unfoldable pub drive : List (ℕ × Method) → Notification → Notification
unfolding attempt
drive [] n = n
drive (call ∷ calls) n = drive calls (attempt call n)

Result-cases :
    (r : Result Notification)
    → ((n : Notification) × (r ≡ ok n)) ⊎ ((n : Notification) → keep_on_error r n ≡ n)
Result-cases (ok n) = inl (n, refl)
Result-cases (err e) = inr (λ n. refl)

attempt-IsConsistent :
    (call : ℕ × Method) (n : Notification) → IsConsistent n → IsConsistent (attempt call n)
unfolding attempt
attempt-IsConsistent (now, m) n h = elim (Result-cases (invoke now m n)) [
  | inl (n', e) ↦ rw e ((invoke-ok now m n e).2)
  | inr same ↦ rw (same n) h
]

-- The fields that no method writes.
pub record SameIdentity (n n' : Notification) : Type 0 where
  pub id : n'.id ≡ n.id
  pub project_id : n'.project_id ≡ n.project_id
  pub recipient_id : n'.recipient_id ≡ n.recipient_id
  pub transaction_id : n'.transaction_id ≡ n.transaction_id
  pub channel : n'.channel ≡ n.channel
  pub category : n'.category ≡ n.category
  pub send_time_basis : n'.send_time_basis ≡ n.send_time_basis
  pub idempotency_key : n'.idempotency_key ≡ n.idempotency_key
  pub created_at : n'.created_at ≡ n.created_at

written-SameIdentity : (now : ℕ) (m : Method) (n : Notification) → SameIdentity n (written now m n)
written-SameIdentity now mark_processing n = ground arith
written-SameIdentity now _ n = ground arith

-- The end of a delivery: the status, and the reason or time that goes with it.
pub record SameVerdict (n n' : Notification) : Type 0 where
  pub status : n'.status ≡ n.status
  pub suppression_reason : n'.suppression_reason ≡ n.suppression_reason
  pub cancellation_reason : n'.cancellation_reason ≡ n.cancellation_reason
  pub failure_reason : n'.failure_reason ≡ n.failure_reason
  pub delivered_at : n'.delivered_at ≡ n.delivered_at

written-SameVerdict :
    (now : ℕ) (m : Method) (n : Notification)
    → is_terminal n.status ≡ true
    → legal m n ≡ true
    → SameVerdict n (written now m n)
written-SameVerdict now mark_processing n t l = ground arith
written-SameVerdict now _ n t l = ground arith

-- A new notification, whatever the calls made on it and whether they raise, satisfies what
-- `__post_init__` checks.
pub drive-IsConsistent :
    (calls : List (ℕ × Method)) (n : Notification) → IsConsistent n → IsConsistent (drive calls n)
unfolding drive
drive-IsConsistent [] n h = h
drive-IsConsistent (call ∷ calls) n h =
    drive-IsConsistent calls (attempt call n) (attempt-IsConsistent call n h)

infix 40 ◌⟶*◌
pub data ◌⟶*◌ : NotificationStatus → NotificationStatus → Type 0 where
  here : {s : NotificationStatus} → s ⟶* s
  next : {s t u : NotificationStatus} → s ⟶ t → t ⟶* u → s ⟶* u

attempt-SameIdentity : (call : ℕ × Method) (n : Notification) → SameIdentity n (attempt call n)
unfolding attempt
attempt-SameIdentity (now, m) n = elim (Result-cases (invoke now m n)) [
  | inl (n', e) ↦ rw (e, (invoke-ok now m n e).1) (written-SameIdentity now m n)
  | inr same ↦ rw (same n) (ground arith)
]

SameIdentity-trans : {a b c : Notification} → SameIdentity a b → SameIdentity b c → SameIdentity a c
SameIdentity-trans p q = ground arith

drive-SameIdentity : (calls : List (ℕ × Method)) (n : Notification) → SameIdentity n (drive calls n)
unfolding drive
drive-SameIdentity [] n = ground arith
drive-SameIdentity (call ∷ calls) n =
    SameIdentity-trans (attempt-SameIdentity call n) (drive-SameIdentity calls (attempt call n))

attempt-⟶ : (call : ℕ × Method) (n : Notification) → n.status ⟶ (attempt call n).status
unfolding attempt
attempt-⟶ (now, m) n = elim (Result-cases (invoke now m n)) [
  | inl (n', e) ↦ rw e (invoke-⟶ now m n e)
  | inr same ↦ rw (same n) edit
]

drive-⟶* : (calls : List (ℕ × Method)) (n : Notification) → n.status ⟶* (drive calls n).status
unfolding drive
drive-⟶* [] n = here
drive-⟶* (call ∷ calls) n = next (attempt-⟶ call n) (drive-⟶* calls (attempt call n))

-- Creating a notification always succeeds, and whatever calls follow, whether or not they raise,
-- leave it consistent, with its identity, on a path of the diagram from PENDING.
pub drive-create :
    (now id : ℕ) (content : NotificationContent) (f : NewNotification) (calls : List (ℕ × Method))
    → let n = new_pending now id content f in
      (create now id content f ≡ ok n)
      × IsConsistent (drive calls n)
      × SameIdentity n (drive calls n)
      × (pending ⟶* (drive calls n).status)
drive-create now id content f calls =
    let n = new_pending now id content f in
    (
      unfold create post_init in refl,
      drive-IsConsistent calls n (ground arith),
      drive-SameIdentity calls n,
      drive-⟶* calls n,
    )

attempt-SameVerdict :
    (call : ℕ × Method) (n : Notification)
    → is_terminal n.status ≡ true
    → SameVerdict n (attempt call n)
unfolding attempt
attempt-SameVerdict (now, m) n t = elim (Result-cases (invoke now m n)) [
  | inl (n', e) ↦ let (l, q, _) = invoke-ok now m n e in rw (e, q) (written-SameVerdict now m n t l)
  | inr same ↦ rw (same n) (ground arith)
]

-- Whatever calls are made on a notification that is DELIVERED, FAILED, BOUNCED, SUPPRESSED or
-- CANCELLED, and whether or not they raise, it keeps its status, its reasons and its delivery time.
pub drive-SameVerdict :
    (calls : List (ℕ × Method)) (n : Notification)
    → is_terminal n.status ≡ true
    → SameVerdict n (drive calls n)
unfolding drive
drive-SameVerdict [] n t = ground arith
drive-SameVerdict (call ∷ calls) n t =
    let first = attempt-SameVerdict call n t in
    let rest = drive-SameVerdict calls (attempt call n) (rw first.status t) in ground arith
