-- ===== src/Rewards/Types.antt =====
-- packages/contracts/src/rewards.ts, and the rows of `user_balances` and `reward_transactions`
-- (apps/api/src/modules/rewards/reward-accounting.service.ts, apps/api/prisma/schema.prisma).
-- Ids are numbers, times are milliseconds, points are integers.
use gemone.Prelude.{ℕ, Bool, Option, Text, ℤ, ◌==◌}

pub data RewardTransactionType : Type 0 where
  conversion_credit chargeback_debit reward_maturation payout_lock : RewardTransactionType
  payout_settle payout_refund manual_adjustment bonus : RewardTransactionType

-- The two types that `CreditInput.type` allows.
pub data CreditType : Type 0 where
  conversion bonus : CreditType

abbrev pub credit_type : CreditType → RewardTransactionType
credit_type CreditType.conversion = RewardTransactionType.conversion_credit
credit_type CreditType.bonus = RewardTransactionType.bonus

pub data RewardActorType : Type 0 where
  user system admin : RewardActorType

pub data RewardSourceType : Type 0 where
  conversion payout admin system : RewardSourceType

-- Strict equality of two transaction types, by a number for each.
abbrev pub tag : RewardTransactionType → ℕ
tag conversion_credit = 0
tag chargeback_debit = 1
tag reward_maturation = 2
tag payout_lock = 3
tag payout_settle = 4
tag payout_refund = 5
tag manual_adjustment = 6
tag RewardTransactionType.bonus = 7

unfoldable pub same_type : RewardTransactionType → RewardTransactionType → Bool
same_type a b = tag a == tag b

abbrev pub source_tag : RewardSourceType → ℕ
source_tag RewardSourceType.conversion = 0
source_tag payout = 1
source_tag RewardSourceType.admin = 2
source_tag RewardSourceType.system = 3

unfoldable pub same_source : RewardSourceType → RewardSourceType → Bool
same_source a b = source_tag a == source_tag b

pub record RewardActor : Type 0 where
  pub kind : RewardActorType
  pub id : Option ℕ

pub record RewardSource : Type 0 where
  pub kind : RewardSourceType
  pub id : Option ℕ
  pub label : Option Text

pub record UserBalance : Type 0 where
  pub id : ℕ
  pub user_id : ℕ
  pub pending_points : ℤ
  pub available_points : ℤ
  pub locked_points : ℤ
  pub lifetime_earned_points : ℤ
  pub lifetime_withdrawn_points : ℤ
  pub lifetime_reversed_points : ℤ
  pub version : ℕ

pub record RewardTransaction : Type 0 where
  pub id : ℕ
  pub user_id : ℕ
  pub kind : RewardTransactionType
  pub amount_points : ℤ
  pub pending_delta : ℤ
  pub available_delta : ℤ
  pub locked_delta : ℤ
  pub source_type : RewardSourceType
  pub source_id : Option ℕ
  pub source_label : Option Text
  pub source_transaction_id : Option ℕ
  pub actor_type : RewardActorType
  pub actor_id : Option ℕ
  pub reason : Option Text
  pub matures_at : Option ℕ
  pub hold_period_days : Option ℕ
  pub created_at : ℕ

-- `{ earned?, withdrawn?, reversed? }`
pub record Lifetime : Type 0 where
  pub earned : Option ℤ
  pub withdrawn : Option ℤ
  pub reversed : Option ℤ

pub record Movement : Type 0 where
  pub user_id : ℕ
  pub kind : RewardTransactionType
  pub amount_points : ℤ
  pub pending_delta : ℤ
  pub available_delta : ℤ
  pub locked_delta : ℤ
  pub source : RewardSource
  pub source_transaction_id : Option ℕ
  pub actor : RewardActor
  pub reason : Option Text
  pub matures_at : Option ℕ
  pub hold_period_days : Option ℕ
  pub lifetime : Lifetime
  pub at : ℕ

-- A JavaScript number, as far as an amount is read: an integer, or anything else.
pub data Number : Type 0 where
  integer : ℤ → Number
  not_an_integer : Number
