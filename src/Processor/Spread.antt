-- ===== src/Processor/Spread.antt =====
-- The fan-out as a set of channels: the notifications of the intake's transaction afterwards stand
-- on the channels that they stood on before and on those of the plan, each channel once.
use tiber.Prelude.{
  ◌≡◌, refl, ap, ◌∙◌, sym, arith, ℕ, List, [], ◌∷◌, ◌++◌, Bool, true, false, ◌&&◌, ◌||◌, not,
  contains, distinct, keep, Bool-cases, inl, inr,
}
use tiber.Prelude.Eq.{Eq, ◌==◌, nat_eq, nat_beq_iff}
use tiber.Enums.{DeliveryChannel, channel_eq}
use tiber.Result.{ok, >>=-eq-ok}
use tiber.Recipient.{Recipient}
use tiber.Notification.{Notification}
use tiber.Intake.{NotificationPlan}
use tiber.Intake.Record.{NotificationIntake}
use tiber.Processor.{IntakePorts, Tables}
use tiber.Processor.FanOut.{
  make_child, make_children, channels_of, save_row, save_child, save_children,
}
use tiber.Processor.Children.{IsChild, make_child-IsChild}

-- a row with that identifier
abbrev pub has_row : ℕ → List Notification → Bool
has_row id [] = false
has_row id (n ∷ rest) = n.id == id || has_row id rest

-- Fresh identifiers: no row has one, and each channel has its own.
pub record IsFresh (p : IntakePorts) (rows : List Notification) : Type 0 where
  pub unused : (c : DeliveryChannel) → has_row (p.new_id c) rows ≡ false
  pub own : (c d : DeliveryChannel) → p.new_id c ≡ p.new_id d → c ≡ d

abbrev pub channel_list : List Notification → List DeliveryChannel
channel_list [] = []
channel_list (n ∷ rest) = n.channel ∷ channel_list rest

module _ {ℓ} {A : Type ℓ} ⦃e : Eq A⦄ where
  pub contains-append :
      (a : A) (xs ys : List A) → contains a (xs ++ ys) ≡ (contains a xs || contains a ys)
  contains-append a [] ys = refl
  contains-append a (x ∷ xs) ys = ground (arith, contains-append a xs ys)

  pub contains-keep :
      (a : A) (f : A → Bool) (xs : List A) → contains a (keep f xs) ≡ (contains a xs && f a)
  contains-keep a f [] = refl
  contains-keep a f (x ∷ xs) = ground (arith, contains-keep a f xs, e.same_iff a x)

  pub distinct-append :
      (xs ys : List A)
      → distinct xs ≡ true
      → distinct ys ≡ true
      → ((a : A) → contains a ys ≡ true → contains a xs ≡ false)
      → distinct (xs ++ ys) ≡ true
  distinct-append [] ys h k apart = k
  distinct-append (x ∷ xs) ys h k apart = ground (
    arith,
    distinct-append xs ys (ground arith) k (λ a c. ground (arith, apart a)),
    contains-append x xs ys,
    apart x,
    e.same_iff x x,
  )

save_row-fresh :
    (n : Notification) (rows : List Notification)
    → has_row n.id rows ≡ false
    → save_row n rows ≡ rows ++ (n ∷ [])
unfolding save_row
save_row-fresh n [] h = refl
save_row-fresh n (m ∷ rest) h = ground (arith, save_row-fresh n rest)

has_row-append :
    (id : ℕ) (rows more : List Notification)
    → has_row id (rows ++ more) ≡ (has_row id rows || has_row id more)
has_row-append id [] more = refl
has_row-append id (n ∷ rows) more = ground (arith, has_row-append id rows more)

append-nil : (xs : List Notification) → xs ++ [] ≡ xs
append-nil [] = refl
append-nil (x ∷ xs) = ap (λ r. x ∷ r) (append-nil xs)

append_assoc : (xs ys zs : List Notification) → (xs ++ ys) ++ zs ≡ xs ++ (ys ++ zs)
append_assoc [] ys zs = refl
append_assoc (x ∷ xs) ys zs = ap (λ r. x ∷ r) (append_assoc xs ys zs)

-- each has an identifier that no row before it has
abbrev pub all_new : List Notification → List Notification → Bool
all_new [] rows = true
all_new (n ∷ rest) rows = not (has_row n.id rows) && all_new rest (rows ++ (n ∷ []))

pub save_children-notifications :
    (children : List Notification) (w : Tables)
    → all_new children w.notifications ≡ true
    → (save_children children w).notifications ≡ w.notifications ++ children
unfolding save_children
save_children-notifications [] w h = sym (append-nil w.notifications)
save_children-notifications (n ∷ rest) w h =
    let saved : save_row n w.notifications ≡ w.notifications ++ (n ∷ []) =
      save_row-fresh n w.notifications (ground arith) in
    let others : (save_children rest (save_child n w)).notifications
        ≡ save_row n w.notifications ++ rest =
      save_children-notifications rest (save_child n w) (rw saved (ground arith)) in
    others ∙ (rw saved (append_assoc w.notifications (n ∷ []) rest))

module _ (p : IntakePorts) (i : NotificationIntake) (plan : NotificationPlan) where
  abbrev pub AllChildren : List Notification → Type 0
  AllChildren [] = Unit {0}
  AllChildren (n ∷ rest) = IsChild p i plan n.channel n × AllChildren rest

  -- what `make_children` gives: one child for each channel that is new
  pub record AreNew (existing cs : List DeliveryChannel) (children : List Notification)
      : Type 0 where
    pub channels : channel_list children ≡ keep (λ c. not (contains c existing)) cs
    pub all : AllChildren children

  AreNew-cons :
      (existing : List DeliveryChannel) (c : DeliveryChannel) (cs : List DeliveryChannel)
      (child : Notification) (others : List Notification)
      → contains c existing ≡ false
      → IsChild p i plan c child
      → AreNew existing cs others
      → AreNew existing (c ∷ cs) (child ∷ others)
  AreNew-cons existing c cs child others new first ih = record {
    channels = rw (new, first.on_channel, ih.channels) refl;
    all = (coe 1 0 (j. IsChild p i plan (first.on_channel j) child) first, ih.all);
  }

  pub make_children-AreNew :
      (r : Recipient) (existing cs : List DeliveryChannel) (children : List Notification)
      → make_children p i plan r existing cs ≡ ok children
      → AreNew existing cs children
  unfolding make_children
  make_children-AreNew r existing [] [] e = record { channels = refl; all = tt }
  make_children-AreNew r existing [] (n ∷ rest) e = absurd (ground arith)
  make_children-AreNew r existing (c ∷ cs) children e = elim (Bool-cases (contains c existing)) [
    | inl old ↦
        let ih = make_children-AreNew r existing cs children (rw old at e) in
        record { channels = rw old ih.channels; all = ih.all }
    | inr new ↦
        let (child, made, rest) = >>=-eq-ok (make_child p i plan r c) _ (rw new at e) in
        let (others, spread, done) = >>=-eq-ok (make_children p i plan r existing cs) _ rest in
        let ih = make_children-AreNew r existing cs others spread in
        let first = make_child-IsChild p i plan c r made in
        let same : children ≡ child ∷ others = ground arith in
        rw same (AreNew-cons existing c cs child others new first ih)
  ]

  -- the children are of the intake's transaction
  pub channels_of-children :
      (children : List Notification)
      → AllChildren children
      → channels_of i.transaction_id i.project_id children ≡ channel_list children
  channels_of-children [] all = refl
  channels_of-children (n ∷ rest) (first, all) = ground (
    arith,
    channels_of-children rest all,
    first.transaction,
    first.project,
    nat_beq_iff n.transaction_id i.transaction_id,
    nat_beq_iff n.project_id i.project_id,
  )

  own_row :
      (c : DeliveryChannel) (n : Notification) (rows : List Notification)
      (rest : List DeliveryChannel)
      → contains c rest ≡ true
      → ((c d : DeliveryChannel) → p.new_id c ≡ p.new_id d → c ≡ d)
      → IsChild p i plan n.channel n
      → contains n.channel rest ≡ false
      → has_row (p.new_id c) rows ≡ false
      → has_row (p.new_id c) (rows ++ (n ∷ [])) ≡ false
  own_row c n rows rest found own child new free = ground (
    arith,
    has_row-append (p.new_id c) rows (n ∷ []),
    own n.channel c,
    nat_beq_iff n.id (p.new_id c),
    child.id,
  )

  -- no child has the identifier of a row, or of another child
  pub all_new-children :
      (children rows : List Notification)
      → ((c : DeliveryChannel)
          → contains c (channel_list children) ≡ true
          → has_row (p.new_id c) rows ≡ false)
      → ((c d : DeliveryChannel) → p.new_id c ≡ p.new_id d → c ≡ d)
      → distinct (channel_list children) ≡ true
      → AllChildren children
      → all_new children rows ≡ true
  all_new-children [] rows unused own once all = refl
  all_new-children (n ∷ rest) rows unused own once (first, all) =
      let ih : all_new rest (rows ++ (n ∷ [])) ≡ true =
        all_new-children rest (rows ++ (n ∷ []))
          (λ c found.
            own_row c n rows (channel_list rest) found own first (ground arith)
              (unused c (ground arith)))
          own (ground arith) all in
      let free : has_row (p.new_id n.channel) rows ≡ false =
        unused n.channel (ground (arith, channel_eq.same_iff n.channel n.channel)) in
      ground (arith, first.id)
