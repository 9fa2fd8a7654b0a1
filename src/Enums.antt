-- ===== src/Enums.antt =====
-- The enumerations of backend/src/tiber/domain/enums.py, each with its equality test.
use tiber.Prelude.{ℕ, ◌≡◌, arith}
use tiber.Prelude.Eq.{Eq, nat_beq, beq_by}

pub data DeliveryChannel : Type 0 where
  email push sms in_app : DeliveryChannel

pub data NotificationCategory : Type 0 where
  critical informational social promotional : NotificationCategory

pub data NotificationStatus : Type 0 where
  pending processing delivered failed bounced suppressed postponed cancelled : NotificationStatus

pub data PolicyConsequence : Type 0 where
  suppress postpone : PolicyConsequence

pub data SendTimeBasis : Type 0 where
  immediate explicit ml_predicted : SendTimeBasis

pub data DeliveryAttemptStatus : Type 0 where
  success fail : DeliveryAttemptStatus

pub data IntakeStatus : Type 0 where
  received processing completed failed : IntakeStatus

-- The members in the order of the class.
abbrev pub channel_rank : DeliveryChannel → ℕ
channel_rank email = 0
channel_rank push = 1
channel_rank sms = 2
channel_rank in_app = 3

abbrev pub category_rank : NotificationCategory → ℕ
category_rank critical = 0
category_rank informational = 1
category_rank social = 2
category_rank promotional = 3

abbrev pub status_rank : NotificationStatus → ℕ
status_rank pending = 0
status_rank NotificationStatus.processing = 1
status_rank delivered = 2
status_rank NotificationStatus.failed = 3
status_rank bounced = 4
status_rank suppressed = 5
status_rank postponed = 6
status_rank cancelled = 7

pub channel_rank_injective : (a b : DeliveryChannel) → channel_rank a ≡ channel_rank b → a ≡ b
channel_rank_injective a b h = ground arith

pub category_rank_injective :
    (a b : NotificationCategory) → category_rank a ≡ category_rank b → a ≡ b
category_rank_injective a b h = ground arith

pub status_rank_injective : (a b : NotificationStatus) → status_rank a ≡ status_rank b → a ≡ b
status_rank_injective a b h = ground arith

instance abbrev pub channel_eq : Eq DeliveryChannel
channel_eq = record {
  same = λ a b. nat_beq (channel_rank a) (channel_rank b);
  same_iff = beq_by channel_rank channel_rank_injective;
}

instance abbrev pub category_eq : Eq NotificationCategory
category_eq = record {
  same = λ a b. nat_beq (category_rank a) (category_rank b);
  same_iff = beq_by category_rank category_rank_injective;
}

instance abbrev pub status_eq : Eq NotificationStatus
status_eq = record {
  same = λ a b. nat_beq (status_rank a) (status_rank b);
  same_iff = beq_by status_rank status_rank_injective;
}
